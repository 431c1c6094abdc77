-- ===== src/Tests/Strings.antt =====
-- A literal in an empty table.
use bread_lang.Prelude.{◌≡◌, refl, false, none, some, [], ◌∷◌, bytes}
use bread_lang.Values.{Str, retain}
use bread_lang.Strings.{InternTable, empty_buckets, new_literal, string_hash}
use bread_lang.Strings.Literals.{new_literal_lem}

abbrev before : InternTable
before = record { buckets = empty_buckets; initialized = false }

abbrev loaf : Str
loaf = record { address = 8; chars = bytes "a" }

string_hash-a : string_hash (bytes "a") ≡ 6
unfolding string_hash
string_hash-a = refl

new_literal_lem_example :
    (loaf.chars ≡ bytes "a")
    × (new_literal none (new_literal (some 8) before (bytes "a")).state (bytes "a") ≡ record {
      result = some loaf;
      state = (new_literal (some 8) before (bytes "a")).state;
      calls = retain 8 ∷ [];
      failure = none;
    })
unfolding new_literal
new_literal_lem_example = new_literal_lem (some 8) none before (bytes "a") loaf (λ e. cc) refl
