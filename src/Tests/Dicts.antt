-- ===== src/Tests/Dicts.antt =====
-- A dictionary of integers, from its first entry on.
use bread_lang.Prelude.{[], ◌∷◌, List, ℕ, ◌<◌, ◌≡◌, ◌≢◌, refl, Bool, true, none, some, arith}
use bread_lang.Prelude.Int.{pos}
use bread_lang.Values.{
  Value, int, same_value, hash_key, int_eq, to_u32, mix, type_of, type_eq, type_code, is_nil_type,
  clone_calls, release_calls, ref,
}
use bread_lang.Dicts.{
  Dict, new, lookup, find_slot, set_safe, get_safe, contains_key, remove, resize, scan, mismatched,
  entry_at, is_live, ends_probe, value_at, move_to, move_entry, move_entries, adopt_types, grow,
  overwrite, occupy, write, erase, tombstone,
}
use bread_lang.Dicts.Probing.{visit}
use bread_lang.Dicts.Stored.{IsValid, Stored, live_count}
use bread_lang.Dicts.Growing.{Same, resize-Same}
use bread_lang.Dicts.Setting.{Updates, set_safe-Updates, set_safe_succeeds}
use bread_lang.Dicts.RoundTrip.{get_safe-set_safe}
use bread_lang.Dicts.Literals.{from_literal, pairs_of_type, all_clones, Holds, from_literal-Holds}
use bread_lang.Dicts.Forgetting.{Removed, remove-Removed, remove_hides, remove_keeps}

program : Unit {0}
unfolding lookup find_slot set_safe get_safe contains_key remove resize scan mismatched is_live
    ends_probe value_at move_to move_entry move_entries adopt_types grow overwrite occupy write
    erase tombstone same_value hash_key int_eq to_u32 mix type_of type_eq type_code is_nil_type
    clone_calls release_calls ref live_count
program = tt

abbrev granted : ℕ → Bool
granted _ = true

abbrev two : Value
two = int (pos 2)

abbrev six : Value
six = int (pos 6)

new-IsValid : IsValid new
unfolding live_count
new-IsValid = record {
  width = refl;
  keys = λ i lt live. absurd (omega arith);
  findable = λ i lt live. absurd (omega arith);
  counted = refl;
}

abbrev one_entry : Dict
one_entry = (set_safe granted new two (int (pos 20))).state

abbrev two_entries : Dict
two_entries = (set_safe granted one_entry six (int (pos 60))).state

one_entry-IsValid : IsValid one_entry
one_entry-IsValid = (set_safe-Updates granted two (int (pos 20)) new-IsValid tt).valid

two_entries-IsValid : IsValid two_entries
two_entries-IsValid = (set_safe-Updates granted six (int (pos 60)) one_entry-IsValid tt).valid

six_reads : get_safe (some two_entries) six ≡ (some (int (pos 60)), none)
unfolding program
six_reads = refl

two-Stored : Stored two_entries two 0
unfolding program
two-Stored = record { inside = omega arith; live = refl; keyed = refl }

six-Stored : Stored two_entries six 1
unfolding program
six-Stored = record { inside = omega arith; live = refl; keyed = refl }

two_before_six : (p q : ℕ) → p < 8 → 0 ≡ visit 0 8 p → q < p → 1 ≢ visit 0 8 q
two_before_six p q lt at_p early same = omega arith

resize-Same_example :
    Same two_entries (resize granted two_entries 2)
    × (0 < 2 → granted 2 ≡ true → (resize granted two_entries 2).capacity ≡ 2)
unfolding program
resize-Same_example = resize-Same granted {d = two_entries} 2 two_entries-IsValid (omega arith)

set_safe-Updates_example :
    Updates two_entries six (int (pos 61)) (set_safe granted two_entries six (int (pos 61)))
set_safe-Updates_example =
    set_safe-Updates granted {d = two_entries} six (int (pos 61)) two_entries-IsValid tt

set_safe_succeeds_example : (set_safe granted two_entries six (int (pos 61))).result ≡ true
unfolding program
set_safe_succeeds_example =
    set_safe_succeeds granted {d = two_entries} six (int (pos 61)) (λ _. refl) two_entries-IsValid
      refl refl

get_safe-set_safe_example :
    (get_safe (some (set_safe granted two_entries six (int (pos 61))).state) six
      ≡ (some (int (pos 61)), none))
    × (contains_key (some (set_safe granted two_entries six (int (pos 61))).state) six ≡ true)
get_safe-set_safe_example =
    get_safe-set_safe granted {d = two_entries} six (int (pos 61)) two_entries-IsValid tt
      set_safe_succeeds_example

remove-Removed_example : Removed two_entries six (remove two_entries six)
unfolding program
remove-Removed_example = remove-Removed two_entries six refl refl

remove_hides_example :
    (lookup two_entries six ≡ some (entry_at two_entries.entries 1).value)
    × (lookup (remove two_entries two).state six ≡ none)
unfolding program
remove_hides_example =
    remove_hides {d = two_entries} two_entries-IsValid two six 0 1 0 tt tt refl two-Stored
      six-Stored (omega arith) refl (λ p lt. absurd (omega arith))

remove_keeps_example : lookup (remove two_entries six).state two ≡ lookup two_entries two
unfolding program
remove_keeps_example =
    remove_keeps {d = two_entries} two_entries-IsValid six two 1 0 tt tt refl six-Stored two-Stored
      (omega arith) two_before_six

abbrev two_pairs : List (Value × Value)
two_pairs = (two, int (pos 20)) ∷ (six, int (pos 60)) ∷ []

from_literal-Holds_example :
    (d : Dict) × (from_literal granted two_pairs
      ≡ record { result = true; state = some d; calls = all_clones two_pairs; failure = none })
    × Holds two_pairs d
unfolding program pairs_of_type
from_literal-Holds_example =
    from_literal-Holds granted two_pairs (λ _. refl) refl
      (λ _. (tt, (λ _. refl, tt)), (λ _. (tt, tt), tt))
