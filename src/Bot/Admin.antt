-- ===== src/Bot/Admin.antt =====
-- src/modules/bot_admin.c: joining, parting, raw lines and the reload that is not there yet.
use minervabot.Prelude.{Bool, true, false, List, [], ◌∷◌, ◌==◌, if◌then◌else◌, pos, ltb_ℤ}
use minervabot.CString.{Bytes, codes}
use minervabot.Bot.{Caller, CoreCall, msg, join, part, raw, first, refusal}

-- The flag says that `SIGUSR1` is raised.
unfoldable pub handle_reload : Bytes → Caller → Bytes → Bytes → List CoreCall × Bool
handle_reload cmdname who where_ args =
    if ltb_ℤ who.permission_level (pos 99999)
    then (refusal who where_ ∷ [], false)
    else (msg where_ (codes "Oops, not 100% implemented yet.") ∷ [], true)

unfoldable pub handle_admin : Bytes → Caller → Bytes → Bytes → List CoreCall
handle_admin cmdname who where_ args =
    if ltb_ℤ who.permission_level (pos 50000)
    then refusal who where_ ∷ []
    else if first cmdname == b'j'
    then join args ∷ []
    else if first cmdname == b'p'
    then part args (codes "You're gonna miss me when I'm gone!") ∷ []
    else []

unfoldable pub handle_raw : Bytes → Caller → Bytes → Bytes → List CoreCall
handle_raw cmdname who where_ args =
    if ltb_ℤ who.permission_level (pos 99999) then refusal who where_ ∷ [] else raw args ∷ []
