-- ===== src/Text.antt =====
-- `str::trim` and `str::split` on a text's bytes, with the white space of ASCII.
use parda.Base.{
  ℕ, ◌≡◌, refl, Bool, true, false, ◌&&◌, ◌||◌, List, [], ◌∷◌, Bytes, All, leb, nat_beq,
  if◌then◌else◌, ◌++◌, keep_if, map, not,
}

abbrev pub is_white_space : ℕ → Bool
is_white_space c = nat_beq c 32 || (leb 9 c && leb c 13)

-- `str::trim`, from each end
unfoldable pub trim_start : Bytes → Bytes
trim_start [] = []
trim_start (c ∷ cs) = let rest = trim_start cs in if is_white_space c then rest else c ∷ cs

unfoldable pub trim_end : Bytes → Bytes
trim_end [] = []
trim_end (c ∷ cs) = elim (trim_end cs) [
  | [] ↦ (if is_white_space c then [] else c ∷ [])
  | d ∷ ds ↦ c ∷ d ∷ ds
]

unfoldable pub trim : Bytes → Bytes
unfolding trim_start trim_end
trim s = trim_end (trim_start s)

-- `str::split(',')`, the piece being read last
unfoldable pub split_on : ℕ → Bytes → Bytes → List Bytes
split_on separator piece [] = piece ∷ []
split_on separator piece (c ∷ cs) =
    let ended = split_on separator [] cs in
    let longer = split_on separator (piece ++ c ∷ []) cs in
    if nat_beq c separator then piece ∷ ended else longer

abbrev is_empty : Bytes → Bool
is_empty [] = true
is_empty (c ∷ cs) = false

abbrev comma : ℕ
comma = 44

-- `split(',').map(trim).filter(|s| !s.is_empty())`
unfoldable pub listed : Bytes → List Bytes
unfolding split_on trim
listed text = keep_if (λ s. not (is_empty s)) (map trim (split_on comma [] text))

abbrev pub IsBlack : ℕ → Type 0
IsBlack c = is_white_space c ≡ false

trim_end_idle : (s : Bytes) → All IsBlack s → trim_end s ≡ s
unfolding trim_end
trim_end_idle [] h = refl
trim_end_idle (c ∷ []) h = rw (h.0) refl
trim_end_idle (c ∷ d ∷ s) h = rw (trim_end_idle (d ∷ s) h.1) refl

-- A text without white space is trimmed already.
pub trim_idle : (s : Bytes) → All IsBlack s → trim s ≡ s
unfolding trim trim_start
trim_idle [] h = trim_end_idle [] h
trim_idle (c ∷ s) h = rw (h.0) (trim_end_idle (c ∷ s) h)
