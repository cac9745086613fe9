-- ===== src/Go/Strings.antt =====
-- Package strings, on bytes. What ToLower and EqualFold do outside ASCII is an argument.
use avella.Common.{
  ℕ, ◌+◌, ◌≡◌, refl, Bool, true, false, ◌&&◌, ◌||◌, [], ◌∷◌, map, ◌==◌, ltb, leb, nat_eq,
  if◌then◌else◌, arith, ℕ_discrete,
}
use avella.Common.Text.{Text, str, text_eq}

-- `strings.HasPrefix`
unfoldable pub has_prefix : Text → Text → Bool
has_prefix s [] = true
has_prefix [] (p ∷ ps) = false
has_prefix (c ∷ s) (p ∷ ps) = c == p && has_prefix s ps

-- `strings.TrimPrefix` for a prefix of one byte.
unfoldable pub trim_byte : ℕ → Text → Text
trim_byte b [] = []
trim_byte b (c ∷ s) = if c == b then s else c ∷ s

-- `strings.Contains`
unfoldable pub contains_text : Text → Text → Bool
unfolding has_prefix
contains_text [] t = has_prefix [] t
contains_text (c ∷ s) t = has_prefix (c ∷ s) t || contains_text s t

unfoldable pub is_ascii : Text → Bool
is_ascii [] = true
is_ascii (c ∷ s) = ltb c 128 && is_ascii s

unfoldable pub lower_byte : ℕ → ℕ
lower_byte c = if leb b'A' c && leb c b'Z' then c + 32 else c

unfoldable pub ascii_lower : Text → Text
unfolding lower_byte
ascii_lower = map lower_byte

-- `strings.ToLower`
unfoldable pub to_lower : (Text → Text) → Text → Text
unfolding is_ascii ascii_lower
to_lower unicode s = if is_ascii s then ascii_lower s else unicode s

-- `strings.EqualFold`
unfoldable pub equal_fold : (Text → Text → Bool) → Text → Text → Bool
unfolding is_ascii ascii_lower
equal_fold unicode s t =
    if is_ascii s && is_ascii t then ascii_lower s == ascii_lower t else unicode s t

lower_byte_idem : (c : ℕ) → lower_byte (lower_byte c) ≡ lower_byte c
unfolding lower_byte
lower_byte_idem c = ground arith

pub ascii_lower_idem : (s : Text) → ascii_lower (ascii_lower s) ≡ ascii_lower s
unfolding ascii_lower
ascii_lower_idem [] = refl
ascii_lower_idem (c ∷ s) = cc (lower_byte_idem c, ascii_lower_idem s)

pub is_ascii-ascii_lower : (s : Text) → is_ascii s ≡ true → is_ascii (ascii_lower s) ≡ true
unfolding is_ascii ascii_lower
is_ascii-ascii_lower [] h = refl
is_ascii-ascii_lower (c ∷ s) h = ground (arith, is_ascii-ascii_lower s)

found : contains_text (str "a/{{.Year}}") (str "{{") ≡ true
unfolding contains_text ℕ_discrete
found = refl
