-- ===== src/SecureMemory.antt =====
-- protocol/src/secure_memory.rs: locking pages, and the count that Linux reports. The system calls are
-- a parameter over the system's state; a text is its bytes.
use parda.Base.{
  ℕ, ◌+◌, ◌*◌, ◌-◌, ◌%◌, Bool, true, ◌&&◌, Option, none, some, List, [], ◌∷◌, Bytes, leb, ltb,
  nat_beq, if◌then◌else◌,
}
use parda.Text.{is_white_space, split_on, trim}
use parda.Protocol.Mixnet.{text}
use parda.Protocol.Envelope.{u64_mod}

-- `mlock` with its return code, and `munlock`
pub record System (S : Type 0) : Type 0 where
  pub mlock : ℕ → ℕ → S → ℕ × S
  pub munlock : ℕ → ℕ → S → S

module _ {S : Type 0} (system : System S) where
  unfoldable pub lock : ℕ → ℕ → S → Bool × S
  lock ptr len s =
      if nat_beq len 0
      then (true, s)
      else let (ret, s') = system.mlock ptr len s in (nat_beq ret 0, s')

  unfoldable pub unlock : ℕ → ℕ → S → S
  unlock ptr len s = if nat_beq len 0 then s else system.munlock ptr len s

-- what follows the prefix
abbrev pub strip : Bytes → Bytes → Option Bytes
strip [] s = some s
strip (p ∷ ps) [] = none
strip (p ∷ ps) (c ∷ s) = let rest = strip ps s in if nat_beq p c then rest else none

-- the first word of a trimmed text, which has none if it is empty
abbrev pub word : Bytes → Bytes
word [] = []
word (c ∷ s) = let rest = word s in if is_white_space c then [] else c ∷ rest

abbrev digits_value : ℕ → Bytes → Option ℕ
digits_value n [] = some n
digits_value n (c ∷ s) =
    let rest = digits_value (n * 10 + (c - 48)) s in if leb 48 c && leb c 57 then rest else none

abbrev in_range : Option ℕ → Option ℕ
in_range none = none
in_range (some n) = if ltb n u64_mod then some n else none

-- `str::parse::<u64>`, which takes a plus sign
abbrev unsigned : Bytes → Option ℕ
unsigned [] = none
unsigned (c ∷ s) = in_range (digits_value 0 (c ∷ s))

abbrev pub parse_u64 : Bytes → Option ℕ
parse_u64 [] = none
parse_u64 (c ∷ s) = if nat_beq c 43 then unsigned s else unsigned (c ∷ s)

abbrev bytes_of_kb : Option ℕ → Option ℕ
bytes_of_kb none = none
bytes_of_kb (some kb) = some (kb * 1024 % u64_mod)

-- The first line with the prefix decides. A carriage return is trimmed with the value.
unfoldable pub count_in : List Bytes → Option ℕ
unfolding trim
count_in [] = none
count_in (line ∷ lines) = elim (strip (text "VmLck:") line) [
  | some rest ↦ bytes_of_kb (parse_u64 (word (trim rest)))
  | none ↦ count_in lines
]

-- `locked_byte_count` on Linux, with what is read of `/proc/self/status`
unfoldable pub locked_byte_count : Option Bytes → Option ℕ
unfolding count_in split_on
locked_byte_count none = none
locked_byte_count (some status) = count_in (split_on 10 [] status)
