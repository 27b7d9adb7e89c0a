-- ===== src/ModelCache/Names.antt =====
-- lmrs/model_cache.py: the name of a model is read back from the name of its directory.
use Prim.Native.Char.{Char, code}
use text.Mathlib.TextEquality.{Char-path}
use vvz_lmrs.Prelude.{
  ℕ, String, Bool, true, false, not, ◌&&◌, ◌||◌, ◌≡◌, refl, sym, ap, ◌∙◌, arith, Bool-cases, inl,
  inr,
}
use vvz_lmrs.ModelCache.Layout.{
  is_code, slash, dash, joined, slashes_to_dashes, strip_slashes, dashes_on, repo_directory_name,
  model_name_from_repo_directory,
}

-- Whether a text starts with a dash or a slash.
unfoldable pub opens : String → Bool
opens String.[] = false
opens (String.◌∷◌ c s) = is_code 45 (code c) || is_code 47 (code c)

-- Whether no dash of a text stands before a dash or a slash.
unfoldable pub is_unambiguous : String → Bool
unfolding opens
is_unambiguous String.[] = true
is_unambiguous (String.◌∷◌ c s) = not (is_code 45 (code c) && opens s) && is_unambiguous s

is_code_lem : (n c : ℕ) → is_code n c ≡ true → c ≡ n
is_code_lem n c h = ground arith

is_slash : (c : Char) → is_code 47 (code c) ≡ true → c ≡ slash
is_slash c h = Char-path c slash (is_code_lem 47 (code c) h)

is_dash : (c : Char) → is_code 45 (code c) ≡ true → c ≡ dash
is_dash c h = Char-path c dash (is_code_lem 45 (code c) h)

and_parts : (a b : Bool) → (a && b) ≡ true → (a ≡ true) × (b ≡ true)
and_parts true b h = (refl, h)
and_parts false b h = cc

or_parts : (a b : Bool) → (a || b) ≡ false → (a ≡ false) × (b ≡ false)
or_parts true b h = cc
or_parts false b h = (refl, h)

not_both : (b : Bool) → not (true && b) ≡ true → b ≡ false
not_both true h = cc
not_both false h = refl

-- One character, by what it is.
decode_slash :
    (c : Char) (s : String)
    → is_code 47 (code c) ≡ true
    → dashes_on false (slashes_to_dashes s) ≡ s
    → dashes_on false (slashes_to_dashes (String.◌∷◌ c s)) ≡ String.◌∷◌ c s
unfolding dashes_on slashes_to_dashes
decode_slash c s h rest =
    rw h (ap (λ t. String.◌∷◌ slash t) rest ∙ ap (λ d. String.◌∷◌ d s) (sym (is_slash c h)))

decode_other :
    (c : Char) (s : String)
    → is_code 47 (code c) ≡ false
    → is_code 45 (code c) ≡ false
    → dashes_on false (slashes_to_dashes s) ≡ s
    → dashes_on false (slashes_to_dashes (String.◌∷◌ c s)) ≡ String.◌∷◌ c s
unfolding dashes_on slashes_to_dashes
decode_other c s h k rest = rw h (rw k (ap (λ t. String.◌∷◌ c t) rest))

decode_dash :
    (c : Char) (s : String)
    → is_code 47 (code c) ≡ false
    → is_code 45 (code c) ≡ true
    → dashes_on true (slashes_to_dashes s) ≡ String.◌∷◌ dash s
    → dashes_on false (slashes_to_dashes (String.◌∷◌ c s)) ≡ String.◌∷◌ c s
unfolding dashes_on slashes_to_dashes
decode_dash c s h k rest = rw h (rw k (rest ∙ ap (λ d. String.◌∷◌ d s) (sym (is_dash c k))))

hold_other :
    (c : Char) (s : String)
    → is_code 47 (code c) ≡ false
    → is_code 45 (code c) ≡ false
    → dashes_on false (slashes_to_dashes s) ≡ s
    → dashes_on true (slashes_to_dashes (String.◌∷◌ c s)) ≡ String.◌∷◌ dash (String.◌∷◌ c s)
unfolding dashes_on slashes_to_dashes
hold_other c s h k rest = rw h (rw k (ap (λ t. String.◌∷◌ dash (String.◌∷◌ c t)) rest))

decode_by :
    (c : Char) (s : String)
    → is_unambiguous (String.◌∷◌ c s) ≡ true
    → dashes_on false (slashes_to_dashes s) ≡ s
    → (opens s ≡ false → dashes_on true (slashes_to_dashes s) ≡ String.◌∷◌ dash s)
    → dashes_on false (slashes_to_dashes (String.◌∷◌ c s)) ≡ String.◌∷◌ c s
unfolding is_unambiguous
decode_by c s h rest hold = elim (Bool-cases (is_code 47 (code c))) [
  | inl e ↦ decode_slash c s e rest
  | inr e ↦ elim (Bool-cases (is_code 45 (code c))) [
    | inl k ↦ decode_dash c s e k (
        hold (
          not_both (opens s) (
            ap (λ b. not (b && opens s)) (sym k)
            ∙ (and_parts (not (is_code 45 (code c) && opens s)) (is_unambiguous s) h).0)))
    | inr k ↦ decode_other c s e k rest
  ]
]

-- What is read back, with and without a dash held.
decoded :
    (s : String)
    → is_unambiguous s ≡ true
    → (dashes_on false (slashes_to_dashes s) ≡ s)
      × (opens s ≡ false → dashes_on true (slashes_to_dashes s) ≡ String.◌∷◌ dash s)
unfolding is_unambiguous opens dashes_on slashes_to_dashes
decoded String.[] h = (refl, λ _. refl)
decoded (String.◌∷◌ c s) h =
    let (rest, hold) =
      decoded s (and_parts (not (is_code 45 (code c) && opens s)) (is_unambiguous s) h).1 in
    (
      decode_by c s h rest hold,
      λ closed.
          let (no_dash, no_slash) = or_parts (is_code 45 (code c)) (is_code 47 (code c)) closed in
          hold_other c s no_slash no_dash rest,
    )

-- A model name is read back from the name of its directory when it has no slash at either end and
-- none of its dashes stands before a dash or a slash.
pub name-read_back :
    (name : String)
    → strip_slashes name ≡ name
    → is_unambiguous name ≡ true
    → model_name_from_repo_directory (repo_directory_name name) ≡ name
unfolding model_name_from_repo_directory repo_directory_name joined
name-read_back name bare h = rw bare ((decoded name h).0)
