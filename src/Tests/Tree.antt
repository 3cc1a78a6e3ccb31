-- ===== src/Tests/Tree.antt =====
-- The theorems on the command tree of src/modules.c and on src/threadpool.c at concrete states.
use minervabot.Prelude.{
  ℕ, ◌≡◌, ◌≢◌, refl, ◌∙◌, Bool, true, false, none, some, List, [], ◌∷◌, ◌++◌, arith, ℤ, pos,
  is_zero, get_elem?,
}
use minervabot.Run.{ok, fault, deadlock}
use minervabot.CString.{codes}
use minervabot.Commands.{
  CommandTree, null, node, nulls, or_new, new_node, letter, modules_register_cmd, modules_check_cmd,
}
use minervabot.Commands.Tree.{letters, find, find-null, find-or_new, IsFull, nulls_full}
use minervabot.Commands.Register.{changed, register_result, Registered, register_from-Registered}
use minervabot.Commands.Table.{
  Request, register, unregister, clean, message, serve, answers, last_table, Implements,
}
use minervabot.Commands.Refine.{serve-answers}
use minervabot.Commands.Contract.{
  answer_to, modules_register_cmd-find, modules_check_cmd-answer_to, modules_check_cmd-register,
}
use minervabot.Threadpool.{
  Job, cmd, Threadpool, threadpool_queue_findspace, threadpool_queue_cmd, execution_done,
}
use minervabot.Threadpool.Slots.{IsPool, Kept, RoomAt, threadpool_queue_cmd-execution_done}
use minervabot.Threadpool.Faults.{findspace-out_of_memory}

-- `cmds` as the program starts; handlers are numbers here
abbrev empty_tree : CommandTree ℕ
empty_tree = node none (nulls 26)

empty_tree-IsFull : IsFull empty_tree
empty_tree-IsFull = nulls_full ℕ 26

empty_tree_ne : empty_tree ≢ null
empty_tree_ne e = cc e

-- with the command `hug`
hug-Registered :
    (t : CommandTree ℕ) × (result : ℤ) × Registered (λ _. true) 5 (codes "hug") empty_tree t result
hug-Registered = register_from-Registered (λ _. true) 5 (codes "hug") empty_tree empty_tree-IsFull

abbrev hug_tree : CommandTree ℕ
hug_tree = hug-Registered.0

hug_tree-IsFull : IsFull hug_tree
hug_tree-IsFull = hug-Registered.2.full

modules_register_cmd-find_example :
    (cmds' : CommandTree ℕ) × (result : ℤ) × (modules_register_cmd
        (λ _. true)
        hug_tree
        (codes "help")
        6
      ≡ ok (cmds', result))
    × IsFull cmds'
    × (cmds' ≢ null)
    × ((js : List ℕ)
        → find js cmds' ≡ changed (is_zero result) (letters (codes "help")) (some 6) hug_tree js)
    × (((n : ℕ) → true ≡ true) → result ≡ register_result (letters (codes "help")))
modules_register_cmd-find_example =
    modules_register_cmd-find (λ _. true) hug_tree (codes "help") 6 hug_tree-IsFull
      (hug-Registered.2.stays empty_tree_ne)

modules_check_cmd-answer_to_example :
    modules_check_cmd (codes ",") hug_tree (codes ",HUG me")
    ≡ ok (answer_to hug_tree b',' (codes ",HUG me"))
modules_check_cmd-answer_to_example =
    modules_check_cmd-answer_to b',' (codes ",HUG me") hug_tree hug_tree-IsFull

no_letter : letter b'!' ≡ none
unfolding letter
no_letter = refl

hug_letters : letters (codes "hug") ≡ some (7 ∷ 20 ∷ 6 ∷ [])
unfolding letters letter
hug_letters = refl

loud_letters : letters (codes "HuG") ≡ some (7 ∷ 20 ∷ 6 ∷ [])
unfolding letters letter
loud_letters = refl

modules_check_cmd-register_example :
    (cmds' : CommandTree ℕ) × (modules_register_cmd (λ _. true) empty_tree (codes "hug") 5
      ≡ ok (cmds', pos 0))
    × (modules_check_cmd (codes ",") cmds' (b',' ∷ (codes "HuG" ++ b' ' ∷ codes "me"))
        ≡ ok (some (record { handler = 5; cmdname = codes "HuG"; args = codes "me" })))
modules_check_cmd-register_example =
    modules_check_cmd-register empty_tree (codes "hug") (codes "HuG") (codes "me") 5 b','
      empty_tree-IsFull empty_tree_ne hug_letters loud_letters

-- a pool of two slots, both in use; handlers and contexts are numbers
abbrev some_job : Job ℕ ℕ
some_job = cmd 1 (codes "hug") (codes "a!b@c") (codes "#c") []

abbrev busy_pool : Threadpool ℕ ℕ
busy_pool = record { pool = some some_job ∷ some some_job ∷ []; pool_len = 2; pool_flags = false }

busy_pool-IsPool : IsPool busy_pool
busy_pool-IsPool = record { size = refl; some_slot = omega arith; clear = refl }

threadpool_queue_cmd-execution_done_example :
    (s' s'' : Threadpool ℕ ℕ) × (n : ℕ) × (threadpool_queue_cmd
        (record { realloc_ok = true; malloc_ok = true; create_ok = true })
        busy_pool
        2
        (codes "help")
        (codes "a!b@c")
        (codes "#c")
        []
      ≡ ok (s', some n))
    × IsPool s'
    × (get_elem? s'.pool n ≡ some (some (cmd 2 (codes "help") (codes "a!b@c") (codes "#c") [])))
    × Kept busy_pool s' n
    × RoomAt busy_pool s' n
    × (execution_done s' n ≡ ok s'')
    × IsPool s''
    × (get_elem? s''.pool n ≡ some none)
    × Kept s' s'' n
threadpool_queue_cmd-execution_done_example =
    threadpool_queue_cmd-execution_done busy_pool 2 (codes "help") (codes "a!b@c") (codes "#c") []
      busy_pool-IsPool

findspace-out_of_memory_example :
    (s' : Threadpool ℕ ℕ) × (threadpool_queue_findspace false busy_pool ≡ ok (none, s'))
    × ((n : ℕ) → execution_done s' n ≡ deadlock)
    × ((realloc_ok : Bool) → threadpool_queue_findspace realloc_ok s' ≡ fault)
findspace-out_of_memory_example = findspace-out_of_memory busy_pool busy_pool-IsPool tt

empty_tree-Implements : Implements empty_tree (λ js. none)
unfolding or_new new_node
empty_tree-Implements = record {
  full = empty_tree-IsFull;
  there = empty_tree_ne;
  finds = λ js. find-or_new true null js ∙ find-null js;
}

-- a command comes, is called in capitals, goes, and is called once more
abbrev requests : List (Request ℕ)
requests =
    register (codes "hug") 5
    ∷ message (codes ",HUG me")
    ∷ unregister (codes "Hug")
    ∷ message (codes ",hug me")
    ∷ clean
    ∷ []

serve-answers_example :
    (cmds' : CommandTree ℕ) × (serve b',' empty_tree requests
      ≡ ok (cmds', answers b',' (λ js. none) requests))
    × Implements cmds' (last_table (λ js. none) requests)
serve-answers_example = serve-answers b',' requests empty_tree (λ js. none) empty_tree-Implements
