-- ===== src/Scopes/Lines.antt =====
-- Declarations and assignments by lines of text keep the invariant.
use bread_lang.Prelude.{
  ◌≡◌, Bool, true, false, Option, none, some, ◌==◌, inl, inr, Bool-cases, Option-cases, length,
  Text, bytes,
}
use bread_lang.Values.{Outcome}
use bread_lang.Types.{VarType}
use bread_lang.Scopes.{Variable, Scopes, get_variable, declare_variable_raw}
use bread_lang.Scopes.Assigning.{ExprResult}
use bread_lang.Scopes.Commands.{
  Machine, released, set_variable_value, set_declared, zero_value, declare_typed, trim_var,
  parse_type, declare_rest, declare_parts, split_at, declare_const, strip, declare_line,
  execute_variable_declaration, assign_line, assign_parts, execute_variable_assignment,
}
use bread_lang.Scopes.Validity.{IsValid}
use bread_lang.Scopes.Keeping.{declare-IsValid, set-IsValid, unless-IsValid}

-- A value from a text is stored as any other.
released-IsValid :
    (r : ExprResult) (o : Outcome Scopes Bool) → IsValid o.state → IsValid (released r o).state
released-IsValid none o h = h
released-IsValid (some v) o h = h

raw-IsValid :
    (m : Machine) {s : Scopes} (n : Text) (x : Variable) (raw : Text)
    → get_variable s (some n) ≡ some x
    → IsValid s
    → IsValid (set_variable_value m s n x raw).state
unfolding set_variable_value
raw-IsValid m n x raw e h =
    released-IsValid (m.evaluate raw) _ (set-IsValid m.casts m.assigned_at n x (m.evaluate raw) e h)

set_Declared-IsValid :
    (m : Machine) {s : Scopes} (n raw : Text)
    → IsValid s
    → IsValid (set_declared m s n (get_variable s (some n)) raw).state
set_Declared-IsValid m {s} n raw h = elim (Option-cases (get_variable s (some n))) [
  | inl e ↦ rw e h
  | inr (x, e) ↦ rw e (raw-IsValid m n x raw e h)
]

declare_typed-IsValid :
    (m : Machine) {s : Scopes} (n : Text) (t : Option VarType) (raw : Text) (k : Bool)
    → IsValid s
    → IsValid (declare_typed m s n t raw k).state
unfolding declare_typed
declare_typed-IsValid m n none raw k h = h
declare_typed-IsValid m {s} n (some t) raw k h =
    let v = declare-IsValid m.name_granted m.declared_at (some n) (zero_value t) k h in
    let set = set_Declared-IsValid m n raw v in
    elim (Bool-cases
      (declare_variable_raw m.name_granted m.declared_at s (some n) (zero_value t) k).result) [
        | inl done ↦ rw done set
        | inr failed ↦ rw failed v
      ]

declare_rest-IsValid :
    (m : Machine) {s : Scopes} (name : Text) (p : Option (Text × Text)) (k : Bool)
    → IsValid s
    → IsValid (declare_rest m s name p k).state
declare_rest-IsValid m name none k h = h
declare_rest-IsValid m name (some (type, value)) k h =
    declare_typed-IsValid m (trim_var name) (parse_type (trim_var type)) (trim_var value) k h

declare_parts-IsValid :
    (m : Machine) {s : Scopes} (p : Option (Text × Text)) (k : Bool)
    → IsValid s
    → IsValid (declare_parts m s p k).state
declare_parts-IsValid m none k h = h
declare_parts-IsValid m (some (name, rest)) k h =
    declare_rest-IsValid m name (split_at b'=' rest) k h

declare_const-IsValid :
    (m : Machine) {s : Scopes} (p : Option Text) → IsValid s → IsValid (declare_const m s p).state
declare_const-IsValid m none h = h
declare_const-IsValid m (some start) h = declare_parts-IsValid m (split_at b':' start) true h

declare_line-IsValid :
    (m : Machine) {s : Scopes} (p : Option Text) (line : Text)
    → IsValid s
    → IsValid (declare_line m s p line).state
declare_line-IsValid m none line h = declare_const-IsValid m (strip (bytes "const ") line) h
declare_line-IsValid m (some start) line h = declare_parts-IsValid m (split_at b':' start) false h

pub line_declaration-IsValid :
    (m : Machine) {s : Scopes} (line : Text)
    → IsValid s
    → IsValid (execute_variable_declaration m s line).state
unfolding execute_variable_declaration
line_declaration-IsValid m line h =
    declare_line-IsValid m (strip (bytes "let ") (trim_var line)) (trim_var line) h

assign_parts-IsValid :
    (m : Machine) {s : Scopes} (p : Option (Text × Text))
    → IsValid s
    → IsValid (assign_parts m s p).state
unfolding assign_line
assign_parts-IsValid m none h = h
assign_parts-IsValid m {s} (some (name, value)) h =
    unless-IsValid (length (trim_var name) == 0) _ h
      (elim (Option-cases (get_variable s (some (trim_var name)))) [
        | inl e ↦ rw e h
        | inr (x, e) ↦ rw e (
            unless-IsValid x.is_const _ h (
              unless-IsValid (length (trim_var value) == 0) _ h
                (raw-IsValid m (trim_var name) x (trim_var value) e h)))
      ])

pub line_assignment-IsValid :
    (m : Machine) {s : Scopes} (line : Text)
    → IsValid s
    → IsValid (execute_variable_assignment m s line).state
unfolding execute_variable_assignment
line_assignment-IsValid m line h = assign_parts-IsValid m (split_at b'=' line) h
