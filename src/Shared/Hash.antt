-- ===== src/Shared/Hash.antt =====
-- hash/fnv and encoding/binary as the program uses them: the 64-bit FNV-1a hash of a byte string,
-- and the little-endian bytes of a word.
use Prim.Native.Nat.{ℕ, zero, suc, ◌*◌, ◌/◌, ◌%◌, bit_xor}
use mathlib.Core.List.{[], ◌∷◌}
use prison_break.Shared.Bytes.{Text}
use prison_break.Shared.Word.{u64}

abbrev pub fnv_offset : ℕ
fnv_offset = 14695981039346656037

abbrev pub fnv_prime : ℕ
fnv_prime = 1099511628211

-- `Write`: fold bytes into the running hash.
unfoldable pub hash_write : ℕ → Text → ℕ
hash_write h [] = h
hash_write h (b ∷ s) = hash_write (u64 (bit_xor h b * fnv_prime)) s

-- `New64a`, one `Write`, `Sum64`.
unfoldable pub fnv64a : Text → ℕ
unfolding hash_write
fnv64a s = hash_write fnv_offset s

-- The low `k` bytes of a word, the lowest first.
unfoldable pub le_bytes : ℕ → ℕ → Text
le_bytes zero n = []
le_bytes (suc k) n = (n % 256) ∷ le_bytes k (n / 256)
