-- ===== src/Bot/Misc.antt =====
-- src/modules/bot_misc.c, and the names that src/modules/bot_math.c lets an expression use.
use minervabot.Prelude.{Bool, false, ◌&&◌, ◌||◌, List, [], ◌∷◌, ◌==◌, if◌then◌else◌}
use minervabot.CString.{Bytes, codes, equal}
use minervabot.Bot.{Caller, CoreCall, msg, to_nick}

unfoldable pub handle_help : Bytes → Caller → Bytes → Bytes → List CoreCall
handle_help cmdname who where_ args =
    to_nick who where_ (
      codes
        "Hiya! I'm a bot written by ohnx. I'm open source! Please visit https://github.com/ohnx/minervabot :)")
    ∷ []

unfoldable pub handle_hello : Bytes → Caller → Bytes → Bytes → List CoreCall
handle_hello cmdname who where_ args = msg where_ (codes "hello world!") ∷ []

-- `func_wl`, without the null at its end
unfoldable pub func_wl : List Bytes
func_wl =
    codes "sin"
    ∷ codes "cos"
    ∷ codes "tan"
    ∷ codes "asin"
    ∷ codes "acos"
    ∷ codes "atan"
    ∷ codes "atan2"
    ∷ codes "exp"
    ∷ codes "exp2"
    ∷ codes "exp10"
    ∷ codes "log"
    ∷ codes "log10"
    ∷ codes "log2"
    ∷ codes "logb"
    ∷ codes "pow"
    ∷ codes "sqrt"
    ∷ codes "cbrt"
    ∷ codes "hypot"
    ∷ codes "expm1"
    ∷ codes "log1p"
    ∷ codes "sinh"
    ∷ codes "cosh"
    ∷ codes "tanh"
    ∷ codes "asinh"
    ∷ codes "acosh"
    ∷ codes "atanh"
    ∷ codes "erf"
    ∷ codes "erfc"
    ∷ codes "lgamma"
    ∷ codes "gamma"
    ∷ codes "tgamma"
    ∷ codes "j0"
    ∷ codes "j1"
    ∷ codes "y0"
    ∷ codes "y1"
    ∷ codes "fabs"
    ∷ codes "fmod"
    ∷ []

unfoldable pub in_list : List Bytes → Bytes → Bool
in_list [] f = false
in_list (w ∷ wl) f = equal w f || in_list wl f

unfoldable pub check_func_wl : Bytes → Bool
check_func_wl f = in_list func_wl f

-- The value of a variable, as what it stands for: doubles are outside the model.
pub data Variable : Type 0 where
  euler : Variable
  pi : Variable
  last_answer : Variable
  nothing : Variable

-- the `switch` on the first character, with the tests on the next ones
unfoldable pub variable_resolver : Bytes → Variable
variable_resolver (a ∷ []) = if a == b'e' then euler else nothing
variable_resolver (a ∷ b ∷ []) = if a == b'p' && b == b'i' then pi else nothing
variable_resolver (a ∷ b ∷ c ∷ []) =
    if a == b'a' && b == b'n' && c == b's' then last_answer else nothing
variable_resolver _ = nothing
