-- ===== src/Payload/Tags.antt =====
-- jsonFieldName: the name of a field from its json tag.
use mathlib.Core.List.{Memᴰ}
use synap_sdk_go.Prelude.{
  ◌≡◌, refl, sym, ◌∙◌, ap, ℕ, ◌≢◌, ◌↔◌, Bool, true, false, ◌||◌, ◌&&◌, inl, inr, Bool-cases, Option,
  none, some, List, [], ◌∷◌, ◌++◌, ◌==◌, if◌then◌else◌, All, arith,
}
use synap_sdk_go.Bytes.{Bytes, codes, bytes_eq, bytes_eq_refl, bytes_eq_sound, is_empty}

abbrev behind : ℕ → List Bytes → List Bytes
behind c [] = (c ∷ []) ∷ []
behind c (part ∷ parts) = (c ∷ part) ∷ parts

-- strings.Split(tag, ","): never empty.
unfoldable pub split_commas : Bytes → List Bytes
split_commas [] = [] ∷ []
split_commas (c ∷ s) = let rest = split_commas s in if c == b',' then [] ∷ rest else behind c rest

abbrev name_or : Bytes → Bytes → Bytes
name_or field [] = field
name_or field (b ∷ name) = b ∷ name

unfoldable pub has_omitempty : List Bytes → Bool
unfolding bytes_eq
has_omitempty [] = false
has_omitempty (opt ∷ opts) = bytes_eq opt (codes "omitempty") || has_omitempty opts

abbrev resolved : Bytes → List Bytes → Bytes × Bool
unfolding has_omitempty
resolved field [] = (field, false)
resolved field (part ∷ opts) = (name_or field part, has_omitempty opts)

-- The wire name and whether the field is left out when empty; `none` is a field that is skipped.
unfoldable pub json_field_name : (field tag : Bytes) → Option (Bytes × Bool)
unfolding split_commas resolved
json_field_name field tag =
    if bytes_eq tag (codes "-") then none else some (resolved field (split_commas tag))

-- A tag as it is written: the name, and each option behind a comma.
unfoldable pub tag_of : Bytes → List Bytes → Bytes
tag_of name [] = name
tag_of name (opt ∷ opts) = name ++ b',' ∷ tag_of opt opts

split_commas-part : (s : Bytes) → All (λ c. c ≢ b',') s → split_commas s ≡ s ∷ []
unfolding split_commas
split_commas-part [] h = refl
split_commas-part (c ∷ s) h = rw (split_commas-part s h.1) (ground (arith, h.0))

split_commas-append :
    (s t : Bytes) → All (λ c. c ≢ b',') s → split_commas (s ++ b',' ∷ t) ≡ s ∷ split_commas t
unfolding split_commas
split_commas-append [] t h = refl
split_commas-append (c ∷ s) t h = rw (split_commas-append s t h.1) (ground (arith, h.0))

split_commas-tag_of :
    (name : Bytes) (opts : List Bytes)
    → All (λ c. c ≢ b',') name
    → All (All (λ c. c ≢ b',')) opts
    → split_commas (tag_of name opts) ≡ name ∷ opts
unfolding tag_of
split_commas-tag_of name [] h k = split_commas-part name h
split_commas-tag_of name (opt ∷ opts) h k =
    split_commas-append name (tag_of opt opts) h
    ∙ ap (λ parts. name ∷ parts) (split_commas-tag_of opt opts k.0 k.1)

has_omitempty_sound :
    (opts : List Bytes) → has_omitempty opts ≡ true → Memᴰ (codes "omitempty") opts
unfolding has_omitempty
has_omitempty_sound (opt ∷ opts) h = elim (Bool-cases (bytes_eq opt (codes "omitempty"))) [
  | inl e ↦ Memᴰ.head (sym (bytes_eq_sound opt (codes "omitempty") e))
  | inr e ↦ Memᴰ.tail (has_omitempty_sound opts (ground (arith, e, h)))
]
has_omitempty_sound [] h = cc

has_omitempty_complete :
    (opts : List Bytes) → Memᴰ (codes "omitempty") opts → has_omitempty opts ≡ true
unfolding has_omitempty
has_omitempty_complete (opt ∷ opts) (Memᴰ.head e) =
    rw (← e) (ground (arith, bytes_eq_refl (codes "omitempty")))
has_omitempty_complete (opt ∷ opts) (Memᴰ.tail m) = ground (arith, has_omitempty_complete opts m)
has_omitempty_complete [] m = elim m [ ]

abbrev pub no_options : List Bytes → Bool
no_options [] = true
no_options (opt ∷ opts) = false

-- A tag with a comma is not "-".
bytes_eq-tag_of :
    (name : Bytes) (opts : List Bytes)
    → bytes_eq (tag_of name opts) (codes "-") ≡ (bytes_eq name (codes "-") && no_options opts)
unfolding tag_of bytes_eq
bytes_eq-tag_of name [] = ground arith
bytes_eq-tag_of [] (opt ∷ opts) = refl
bytes_eq-tag_of (a ∷ []) (opt ∷ opts) = ground arith
bytes_eq-tag_of (a ∷ b ∷ name) (opt ∷ opts) = ground arith

name_or-is_empty :
    (field name : Bytes) → name_or field name ≡ (if is_empty name then field else name)
name_or-is_empty field [] = refl
name_or-is_empty field (b ∷ name) = refl

-- For a tag of a name and options, none of them with a comma inside, jsonFieldName skips the field if
-- the name is "-" and there is no option. Otherwise it gives that name, or the name of the field where
-- the tag has none, and true exactly if omitempty is one of the options, wherever it stands.
pub json_field_name-tag_of :
    (field name : Bytes) (opts : List Bytes)
    → All (λ c. c ≢ b',') name
    → All (All (λ c. c ≢ b',')) opts
    → (omitted : Bool) × ((omitted ≡ true) ↔ Memᴰ (codes "omitempty") opts)
      × (json_field_name field (tag_of name opts) ≡ (
          if bytes_eq name (codes "-") && no_options opts
          then none
          else some (if is_empty name then field else name, omitted)))
unfolding json_field_name
json_field_name-tag_of field name opts h k = (
  has_omitempty opts,
  (has_omitempty_sound opts, has_omitempty_complete opts),
  rw (split_commas-tag_of name opts h k, bytes_eq-tag_of name opts, name_or-is_empty field name),
)
