-- ===== src/Dsl/Calls.antt =====
-- validatePipelineCalls of internal/router/dsl/compiler.go: every call is of a pipeline that is
-- there, and no pipeline calls itself, whatever is between. That it ends with an answer is in Ending, and what it accepts in Ranked.
pub mod Closed
pub mod Progress
pub mod Ending
pub mod Ranked
use Prim.Native.String.{compare}
use text.Mathlib.Text.{is_lt}
use senechal_gw.Prelude.{
  ℕ, zero, suc, String, Bool, true, false, ◌&&◌, Option, none, some, List, [], ◌∷◌, ◌++◌, map,
  length, any, find?, str_eq, if◌then◌else◌,
}
use senechal_gw.Dsl.{Pipeline, is_called}

-- The states 1 and 2 of a name.
pub data Mark : Type 0 where
  open_name closed_name : Mark

-- The map of the states: what was written last stands first. A name without a state is not there.
abbrev pub Marks : Type 0
Marks = List (String × Mark)

unfoldable pub mark_of : String → Marks → Option Mark
mark_of name [] = none
mark_of name ((n, m) ∷ ms) = let rest = mark_of name ms in if str_eq n name then some m else rest

-- An answer of the check: a pipeline that a name is missing for is a nil pointer in the code.
pub data Checked (A : Type 0) : Type 0 where
  accepted : A → Checked A
  unknown_pipeline : String → String → Checked A
  call_cycle : List String → Checked A
  panics out_of_fuel : Checked A

infixl 20 ◌>>=◌
abbrev pub ◌>>=◌ : {A B : Type 0} → Checked A → (A → Checked B) → Checked B
accepted a >>= f = f a
unknown_pipeline name called >>= f = unknown_pipeline name called
call_cycle names >>= f = call_cycle names
panics >>= f = panics
out_of_fuel >>= f = out_of_fuel

-- The stack from the name on.
unfoldable pub from_name : String → List String → List String
from_name name [] = []
from_name name (n ∷ ns) = let rest = from_name name ns in if str_eq n name then n ∷ ns else rest

-- The loop over the calls of a pipeline.
unfoldable pub walk_all : (String → Marks → Checked Marks) → List String → Marks → Checked Marks
walk_all f [] st = accepted st
walk_all f (d ∷ ds) st = do st' ← f d st; walk_all f ds st'

unfoldable pub walk_calls :
    (List String → String → Marks → Checked Marks)
    → String
    → List String
    → Marks
    → Option Pipeline
    → Checked Marks
unfolding walk_all
walk_calls f name stack st none = panics
walk_calls f name stack st (some p) = do
  st' ← walk_all (f (stack ++ (name ∷ []))) p.called_pipelines ((name, open_name) ∷ st)
  accepted ((name, closed_name) ∷ st')

unfoldable pub enter :
    (List String → String → Marks → Checked Marks)
    → List Pipeline
    → List String
    → String
    → Marks
    → Option Mark
    → Checked Marks
unfolding walk_calls
enter f ps stack name st (some closed_name) = accepted st
enter f ps stack name st (some open_name) = call_cycle (from_name name stack ++ (name ∷ []))
enter f ps stack name st none = walk_calls f name stack st (find? (is_called name) ps)

-- walk; the fuel bounds the calls of pipelines by pipelines.
unfoldable pub walk : ℕ → List Pipeline → List String → String → Marks → Checked Marks
unfolding enter mark_of
walk zero ps stack name st = out_of_fuel
walk (suc fuel) ps stack name st = enter (walk fuel ps) ps stack name st (mark_of name st)

-- sort.Strings
unfoldable pub insert_text : String → List String → List String
insert_text x [] = x ∷ []
insert_text x (y ∷ ys) =
    let rest = insert_text x ys in if is_lt (compare y x) then y ∷ rest else x ∷ y ∷ ys

unfoldable pub sort_strings : List String → List String
unfolding insert_text
sort_strings [] = []
sort_strings (x ∷ xs) = insert_text x (sort_strings xs)

-- The loops over the pipelines and their calls that look for a name that is not there. The code reads
-- the map in any order, so that which of several names it reports is open.
unfoldable pub check_called : List Pipeline → String → List String → Checked (Unit {0})
check_called ps name [] = accepted tt
check_called ps name (c ∷ cs) =
    let rest = check_called ps name cs in
    if any (is_called c) ps then rest else unknown_pipeline name c

unfoldable pub check_references : List Pipeline → List Pipeline → Checked (Unit {0})
unfolding check_called
check_references ps [] = accepted tt
check_references ps (q ∷ qs) = do
  seen ← check_called ps q.name q.called_pipelines
  check_references ps qs

abbrev pub names_of : List Pipeline → List String
names_of ps = map (λ p. p.name) ps

-- validatePipelineCalls
unfoldable pub validate_pipeline_calls : List Pipeline → Checked (Unit {0})
unfolding check_references walk_all walk sort_strings
validate_pipeline_calls ps = do
  seen ← check_references ps ps
  marks ← walk_all (walk (suc (length ps)) ps []) (sort_strings (names_of ps)) []
  accepted tt
