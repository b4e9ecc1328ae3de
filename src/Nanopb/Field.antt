-- ===== src/Nanopb/Field.antt =====
-- Field descriptors and wire types: pb_field_t, the PB_LTYPE, PB_HTYPE and PB_ATYPE constants and
-- pb_wire_type_t of pb.h, with 32-bit sizes (PB_FIELD_32BIT). `ptr` is an address.
use on_my_way.Base.{ℕ, bit_and}

pub record Field : Type 0 where
  pub tag : ℕ
  pub type : ℕ
  pub data_offset : ℕ
  pub size_offset : ℕ
  pub data_size : ℕ
  pub array_size : ℕ
  pub ptr : ℕ

abbrev pub pb_ltype : ℕ → ℕ
pb_ltype x = bit_and x 0x0f

abbrev pub pb_htype : ℕ → ℕ
pb_htype x = bit_and x 0x30

abbrev pub pb_atype : ℕ → ℕ
pb_atype x = bit_and x 0xc0

abbrev pub pb_ltype_varint : ℕ
pb_ltype_varint = 0x00

abbrev pub pb_ltype_uvarint : ℕ
pb_ltype_uvarint = 0x01

abbrev pub pb_ltype_svarint : ℕ
pb_ltype_svarint = 0x02

abbrev pub pb_ltype_fixed32 : ℕ
pb_ltype_fixed32 = 0x03

abbrev pub pb_ltype_fixed64 : ℕ
pb_ltype_fixed64 = 0x04

abbrev pub pb_ltype_bytes : ℕ
pb_ltype_bytes = 0x05

abbrev pub pb_ltype_string : ℕ
pb_ltype_string = 0x06

abbrev pub pb_ltype_submessage : ℕ
pb_ltype_submessage = 0x07

abbrev pub pb_ltype_extension : ℕ
pb_ltype_extension = 0x08

abbrev pub pb_ltype_fixed_length_bytes : ℕ
pb_ltype_fixed_length_bytes = 0x09

abbrev pub pb_htype_required : ℕ
pb_htype_required = 0x00

abbrev pub pb_htype_repeated : ℕ
pb_htype_repeated = 0x20

abbrev pub pb_htype_oneof : ℕ
pb_htype_oneof = 0x30

abbrev pub pb_atype_static : ℕ
pb_atype_static = 0x00

abbrev pub pb_atype_pointer : ℕ
pb_atype_pointer = 0x80

abbrev pub pb_size_max : ℕ
pb_size_max = 0xffffffff

abbrev pub pb_wt_varint : ℕ
pb_wt_varint = 0

abbrev pub pb_wt_64bit : ℕ
pb_wt_64bit = 1

abbrev pub pb_wt_string : ℕ
pb_wt_string = 2

abbrev pub pb_wt_32bit : ℕ
pb_wt_32bit = 5

abbrev pub pb_htype_optional : ℕ
pb_htype_optional = 0x10

abbrev pub pb_atype_callback : ℕ
pb_atype_callback = 0x40

abbrev pub pb_ltype_last_packable : ℕ
pb_ltype_last_packable = 0x04
