-- ===== src/Strings/Literals.antt =====
-- String literals: one object for the same bytes.
use bread_lang.Prelude.{
  ℕ, ◌+◌, ◌*◌, ◌^◌, ◌%◌, ◌<◌, ◌≡◌, refl, sym, ap, ◌∙◌, Bool, true, false, Option, none, some, [],
  ◌∷◌, if◌then◌else◌, length, get_or, length-set, get_or-set_self, inl, inr, Bool-cases, Text,
  text_eq, text_eq_refl, text_eq→eq, arith,
}
use bread_lang.Values.{Str, retain, Outcome}
use bread_lang.Strings.{
  InternTable, empty_buckets, hash_from, string_hash, intern_init, new_len, replace_bucket, holds,
  literal_in, new_literal,
}

-- The table has its buckets, once it is initialised.
abbrev pub IsValid : InternTable → Type 0
IsValid t = t.initialized ≡ true → length t.buckets ≡ 256

hash_from-lt : (h : ℕ) (s : Text) → hash_from h s < 256
unfolding hash_from
hash_from-lt h [] = omega arith
hash_from-lt h (c ∷ cs) = hash_from-lt ((h * 33 + c) % 2 ^ 32) cs

string_hash-lt : (s : Text) → string_hash s < 256
unfolding string_hash
string_hash-lt s = hash_from-lt 5381 s

intern_init-ready :
    (t : InternTable)
    → IsValid t
    → (length (intern_init t).buckets ≡ 256) × ((intern_init t).initialized ≡ true)
unfolding intern_init
intern_init-ready t h = by_state t.initialized refl
  where
    by_state :
        (b : Bool)
        → t.initialized ≡ b
        → (length (if b then t else record { buckets = empty_buckets; initialized = true }).buckets
            ≡ 256)
          × ((if b then t else record { buckets = empty_buckets; initialized = true }).initialized
              ≡ true)
    by_state true e = (h e, e)
    by_state false e = (refl, refl)

intern_init-same : (t : InternTable) → t.initialized ≡ true → intern_init t ≡ t
unfolding intern_init
intern_init-same t e = rw e refl

-- A string that the table gives has the bytes, and stands in the bucket.
record Gives (t : InternTable) (h : ℕ) (s : Text) (o : Outcome InternTable (Option Str)) (x : Str)
    : Type 0 where
  pub chars : x.chars ≡ s
  pub kept : get_or o.state.buckets h none ≡ some x
  pub size : length o.state.buckets ≡ 256
  pub started : o.state.initialized ≡ true

holds-some :
    (b : Option Str) (s : Text) → holds b s ≡ true → (x : Str) × (b ≡ some x) × (x.chars ≡ s)
holds-some none s e = cc
holds-some (some x) s e = (x, refl, text_eq→eq x.chars s e)

literal_in-Gives :
    (fresh : Option ℕ) (t : InternTable) (h : ℕ) (s : Text) (x : Str)
    → h < 256
    → length t.buckets ≡ 256
    → t.initialized ≡ true
    → (literal_in fresh t h s).result ≡ some x
    → Gives t h s (literal_in fresh t h s) x
unfolding literal_in
literal_in-Gives fresh t h s x lt size on e =
    elim (Bool-cases (holds (get_or t.buckets h none) s)) [
      | inl there ↦
          let (y, at_h, same) = holds-some (get_or t.buckets h none) s there in
          let eq : y ≡ x = cc (rw (there, at_h) at e) in
          rw (there, at_h)
            (record {
              chars = ap (λ (z : Str). z.chars) (sym eq) ∙ same;
              kept = at_h ∙ ap some eq;
              size = size;
              started = on;
            })
      | inr new ↦ rw new (added fresh (rw new at e))
    ]
  where
    added :
        (fresh : Option ℕ)
        → (replace_bucket t h (new_len fresh s)).result ≡ some x
        → Gives t h s (replace_bucket t h (new_len fresh s)) x
    added none e = cc
    added (some a) e =
        let eq : record { address = a; chars = s } ≡ x = cc in
        record {
          chars = ap (λ (z : Str). z.chars) (sym eq);
          kept =
              get_or-set_self t.buckets h (some (record { address = a; chars = s })) none
                (omega arith)
              ∙ ap some eq;
          size = length-set t.buckets h (some (record { address = a; chars = s })) ∙ size;
          started = on;
        }

-- A literal that is in its bucket is shared.
literal_in-shared :
    (fresh : Option ℕ) (t : InternTable) (h : ℕ) (s : Text) (x : Str)
    → get_or t.buckets h none ≡ some x
    → x.chars ≡ s
    → literal_in fresh t h s
      ≡ record { result = some x; state = t; calls = retain x.address ∷ []; failure = none }
unfolding literal_in
literal_in-shared fresh t h s x at_h same =
    let equal : text_eq x.chars s ≡ true = rw same (text_eq_refl s) in rw (at_h, equal) refl

-- In a table that has its buckets once it is initialised, a string that `bread_string_new_literal` gives has the bytes of the literal, and the next call for the
-- same literal gives the same object, with one more reference, and leaves the table as it is.
pub new_literal_lem :
    (fresh again : Option ℕ) (t : InternTable) (s : Text) (x : Str)
    → IsValid t
    → (new_literal fresh t s).result ≡ some x
    → (x.chars ≡ s)
      × (new_literal again (new_literal fresh t s).state s ≡ record {
        result = some x;
        state = (new_literal fresh t s).state;
        calls = retain x.address ∷ [];
        failure = none;
      })
unfolding new_literal
new_literal_lem fresh again t s x h e =
    let (size, on) = intern_init-ready t h in
    let g =
      literal_in-Gives fresh (intern_init t) (string_hash s) s x (string_hash-lt s) size on e in
    let after = (literal_in fresh (intern_init t) (string_hash s) s).state in
    (
      g.chars,
      ap (λ (u : InternTable). literal_in again u (string_hash s) s)
            (intern_init-same after g.started)
          ∙ literal_in-shared again after (string_hash s) s x g.kept g.chars,
    )
