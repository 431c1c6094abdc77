-- ===== src/Dicts/Adding.antt =====
-- What writing an entry does to a valid table: a new key is counted, an old one keeps its place.
use bread_lang.Prelude.{ℕ, ◌+◌, ◌≡◌, refl, true, false, some, if◌then◌else◌, arith}
use bread_lang.Values.{Value, same_value}
use bread_lang.Values.Keys.{IsKey}
use bread_lang.Dicts.{Entry, Dict, entry_at, is_live, lookup}
use bread_lang.Dicts.Stored.{IsValid}
use bread_lang.Dicts.Placing.{Fits, place, slot_inside, place-IsValid, lookup-place}
use bread_lang.Dicts.Counting.{weight_live, weight_dead, live_count-set}

-- `value` stored under `key`: the table is valid, counts the key if it is new, and finds it.
pub record Placed (d : Dict) (key value : Value) (fresh : ℕ) (r : Dict) : Type 0 where
  pub valid : IsValid r
  pub same_capacity : r.capacity ≡ d.capacity
  pub count : r.count ≡ d.count + fresh
  pub reads :
      (k : Value) → IsKey k → lookup r k ≡ (if same_value key k then some value else lookup d k)

module _ {d : Dict} {key : Value} {i : ℕ} {e : Entry} (v : IsValid d) (f : Fits d key i e) where
  pub place_new :
      is_live (entry_at d.entries i) ≡ false → Placed d key e.value 1 (place d i e (d.count + 1))
  place_new dead =
      let counted = v.counted in
      let valid : IsValid (place d i e (d.count + 1)) = place-IsValid v f (d.count + 1) (
        omega (
          arith,
          live_count-set d.entries i e (slot_inside v f 0),
          weight_dead (entry_at d.entries i) dead,
          weight_live e f.live,
        )) in
      record {
        valid = valid;
        same_capacity = refl;
        count = refl;
        reads = λ k is_key. lookup-place v f (d.count + 1) valid k is_key;
      }

  pub place_over :
      is_live (entry_at d.entries i) ≡ true → Placed d key e.value 0 (place d i e d.count)
  place_over old =
      let counted = v.counted in
      let valid : IsValid (place d i e d.count) = place-IsValid v f d.count (
        omega (
          arith,
          live_count-set d.entries i e (slot_inside v f 0),
          weight_live (entry_at d.entries i) old,
          weight_live e f.live,
        )) in
      record {
        valid = valid;
        same_capacity = refl;
        count = omega arith;
        reads = λ k is_key. lookup-place v f d.count valid k is_key;
      }
