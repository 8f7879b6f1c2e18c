-- ===== src/Tests/SecureMemory.antt =====
-- Counts read from Linux's status texts, and locking nothing.
use parda.Base.{ℕ, ◌+◌, ◌≡◌, refl, true, false, none, some, [], ◌∷◌, ◌++◌, Bytes}
use parda.Protocol.Mixnet.{text}
use parda.Text.{split_on, trim, trim_start, trim_end}
use parda.SecureMemory.{System, lock, unlock, count_in, locked_byte_count}

abbrev status : Bytes → Bytes
status value = text "Name:" ++ 9 ∷ text "parda" ++ 10 ∷ text "VmLck:" ++ 9 ∷ value ++ 10 ∷ []

counts :
    (locked_byte_count (some (status (text "      64 kB"))) ≡ some 65536)
    × (locked_byte_count (some (status (text "none"))) ≡ none)
    × (locked_byte_count (some (text "Name: parda")) ≡ none)
    × (locked_byte_count none ≡ none)
unfolding locked_byte_count count_in split_on trim trim_start trim_end
counts = (refl, refl, refl, refl)

-- a system that counts the calls and refuses to lock
abbrev refusing : System ℕ
refusing = record { mlock = λ ptr len calls. (12, calls + 1); munlock = λ ptr len calls. calls + 1 }

locks :
    (lock refusing 7 0 0 ≡ (true, 0))
    × (lock refusing 7 32 0 ≡ (false, 1))
    × (unlock refusing 7 0 1 ≡ 1)
    × (unlock refusing 7 32 1 ≡ 2)
unfolding lock unlock
locks = (refl, refl, refl, refl)
