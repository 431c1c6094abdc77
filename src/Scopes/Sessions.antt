-- ===== src/Scopes/Sessions.antt =====
-- Sequences of the operations on variables, and the invariant that they keep.
use bread_lang.Prelude.{ℕ, Bool, true, Option, none, List, [], ◌∷◌, Text, arith}
use bread_lang.Prelude.Int.{ℤ}
use bread_lang.Values.{Value, Outcome}
use bread_lang.Scopes.{
  Scopes, init_variables, push_scope, pop_scope, pop_to_scope_depth, cleanup_variables,
  declare_variable_raw,
}
use bread_lang.Scopes.Coercion.{Casts}
use bread_lang.Scopes.Assigning.{ExprResult, init_variable, assign_variable}
use bread_lang.Scopes.Commands.{Machine, execute_variable_declaration, execute_variable_assignment}
use bread_lang.Scopes.Validity.{IsValid}
use bread_lang.Scopes.Keeping.{
  push-IsValid, pop-IsValid, declare-IsValid, init-IsValid, assign-IsValid, pop_to-IsValid,
  cleanup-IsValid,
}
use bread_lang.Scopes.Lines.{line_declaration-IsValid, line_assignment-IsValid}

-- The calls that a program makes, with what the allocator and the expressions answer.
pub data Command : Type 0 where
  push pop cleanup : Command
  pop_to : ℤ → Command
  declare : Bool → Option ℕ → Option Text → Value → Bool → Command
  assign initialise : Casts → Option ℕ → Text → ExprResult → Command
  line_declaration line_assignment : Machine → Text → Command

unfoldable pub step : Command → Scopes → Outcome Scopes Bool
unfolding push_scope pop_scope cleanup_variables pop_to_scope_depth declare_variable_raw
    assign_variable init_variable execute_variable_declaration execute_variable_assignment
step push s = push_scope s
step pop s = pop_scope s
step cleanup s = record {
  result = true;
  state = (cleanup_variables s).0;
  calls = (cleanup_variables s).1;
  failure = none;
}
step (pop_to d) s = pop_to_scope_depth d s
step (declare granted fresh n v k) s = declare_variable_raw granted fresh s n v k
step (assign c fresh n r) s = assign_variable c fresh s n r
step (initialise c fresh n r) s = init_variable c fresh s n r
step (line_declaration m line) s = execute_variable_declaration m s line
step (line_assignment m line) s = execute_variable_assignment m s line

unfoldable pub run : List Command → Scopes → Scopes
unfolding step
run [] s = s
run (c ∷ cs) s = run cs (step c s).state

pub step-IsValid : (c : Command) {s : Scopes} → IsValid s → IsValid (step c s).state
unfolding step
step-IsValid push h = push-IsValid h
step-IsValid pop h = pop-IsValid h
step-IsValid cleanup {s} h = cleanup-IsValid s
step-IsValid (pop_to d) h = pop_to-IsValid d h
step-IsValid (declare granted fresh n v k) h = declare-IsValid granted fresh n v k h
step-IsValid (assign c fresh n r) h = assign-IsValid c fresh n r h
step-IsValid (initialise c fresh n r) h = init-IsValid c fresh n r h
step-IsValid (line_declaration m line) h = line_declaration-IsValid m line h
step-IsValid (line_assignment m line) h = line_assignment-IsValid m line h

run_keeps : (cs : List Command) {s : Scopes} → IsValid s → IsValid (run cs s)
unfolding run
run_keeps [] h = h
run_keeps (c ∷ cs) h = run_keeps cs (step-IsValid c h)

-- After `init_variables` and any sequence of pushes, pops, cleanups, declarations, initialisations and assignments,
-- also those by lines of text, whether they succeed or fail, there are at most 64 scopes of at most 256 variables, whose names are
-- shorter than 255 bytes, and no two variables of a scope have one name.
pub run-IsValid : (cs : List Command) (s : Scopes) → IsValid (run cs (init_variables s))
run-IsValid cs s = run_keeps cs (record {
  depth = omega arith;
  each = (record { bound = omega arith; short = tt; distinct = tt }, tt);
})
