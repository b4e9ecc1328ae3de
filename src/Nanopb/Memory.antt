-- ===== src/Nanopb/Memory.antt =====
-- Bytes at addresses, in which the structs of pb.h lie on a little-endian machine with 8-byte
-- pointers. The address 0 is NULL.
use on_my_way.Base.{ℕ, zero, suc, ◌+◌, ◌*◌, ◌/◌, ◌%◌, Bool, not, List, [], ◌∷◌, eqb, if◌then◌else◌}

abbrev pub Memory : Type 0
Memory = ℕ → ℕ

-- A number of `count` bytes.
unfoldable pub load : Memory → ℕ → ℕ → ℕ
load memory zero p = 0
load memory (suc count) p = memory p % 256 + 256 * load memory count (suc p)

unfoldable pub bytes_at : Memory → ℕ → ℕ → List ℕ
bytes_at memory zero p = []
bytes_at memory (suc count) p = (memory p % 256) ∷ bytes_at memory count (suc p)

abbrev pub load_pointer : Memory → ℕ → ℕ
load_pointer memory p = load memory 8 p

-- `*(const pb_size_t*)p`
abbrev pub load_size : Memory → ℕ → ℕ
load_size memory p = load memory 4 p

-- `*(const bool*)p`
abbrev pub load_bool : Memory → ℕ → Bool
load_bool memory p = not (eqb (memory p % 256) 0)

-- The members of pb_bytes_array_t, pb_callback_t, pb_extension_t and pb_extension_type_t.
abbrev pub bytes_offset : ℕ
bytes_offset = 4

abbrev pub callback_arg_offset : ℕ
callback_arg_offset = 8

abbrev pub extension_dest_offset : ℕ
extension_dest_offset = 8

abbrev pub extension_next_offset : ℕ
extension_next_offset = 16

abbrev pub extension_found_offset : ℕ
extension_found_offset = 24

abbrev pub type_encode_offset : ℕ
type_encode_offset = 8

abbrev pub type_arg_offset : ℕ
type_arg_offset = 16

abbrev pub store_byte : Memory → ℕ → ℕ → Memory
store_byte memory p b q = if eqb q p then b % 256 else memory q

-- A number of `count` bytes, with the lowest first.
unfoldable pub store : Memory → ℕ → ℕ → ℕ → Memory
store memory zero p value = memory
store memory (suc count) p value = store (store_byte memory p value) count (suc p) (value / 256)

unfoldable pub store_bytes : Memory → ℕ → List ℕ → Memory
store_bytes memory p [] = memory
store_bytes memory p (b ∷ bytes) = store_bytes (store_byte memory p b) (suc p) bytes

abbrev pub store_pointer : Memory → ℕ → ℕ → Memory
store_pointer memory p value = store memory 8 p value

abbrev pub store_size : Memory → ℕ → ℕ → Memory
store_size memory p value = store memory 4 p value

abbrev pub memset_zero : Memory → ℕ → ℕ → Memory
memset_zero memory p count = store_bytes memory p (bytes_at (λ q. 0) count p)

abbrev pub memcpy : Memory → ℕ → ℕ → ℕ → Memory
memcpy memory dest src count = store_bytes memory dest (bytes_at memory count src)
