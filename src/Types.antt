-- ===== src/Types.antt =====
-- dis86/src/types.rs: the types of values.
use dis.Prelude.{ℕ, ◌*◌, ◌^◌, Bool, true, false, ◌||◌, Option, none, some, ltb, if◌then◌else◌}

pub record StructRef : Type 0 where
  pub idx : ℕ
  pub size : ℕ

pub data GuestPtrKind : Type 0 where
  near near_ss near_es far : GuestPtrKind

pub data ArraySize : Type 0 where
  known : ℕ → ArraySize
  unknown_size : ArraySize

-- `Type` of types.rs
pub data DataType : Type 0 where
  void u8 u16 u32 i8 i16 i32 unknown : DataType
  array : DataType → ArraySize → DataType
  ptr : DataType → DataType
  guest_ptr : DataType → GuestPtrKind → DataType
  struct : StructRef → DataType

unfoldable pub is_primitive : DataType → Bool
is_primitive DataType.void = true
is_primitive DataType.u8 = true
is_primitive DataType.u16 = true
is_primitive DataType.u32 = true
is_primitive DataType.i8 = true
is_primitive DataType.i16 = true
is_primitive DataType.i32 = true
is_primitive DataType.unknown = true
is_primitive _ = false

abbrev pub array_bytes : Option ℕ → ArraySize → Option ℕ
array_bytes none sz = none
array_bytes (some elt) unknown_size = none
array_bytes (some elt) (known n) = if ltb (elt * n) (2 ^ 64) then some (elt * n) else none

-- `usize` has 64 bits, and `checked_mul` is none on overflow.
unfoldable pub size_in_bytes : DataType → Option ℕ
size_in_bytes DataType.void = none
size_in_bytes DataType.u8 = some 1
size_in_bytes DataType.u16 = some 2
size_in_bytes DataType.u32 = some 4
size_in_bytes DataType.i8 = some 1
size_in_bytes DataType.i16 = some 2
size_in_bytes DataType.i32 = some 4
size_in_bytes DataType.unknown = none
size_in_bytes (array typ sz) = array_bytes (size_in_bytes typ) sz
size_in_bytes (ptr base) = none
size_in_bytes (guest_ptr base far) = some 4
size_in_bytes (guest_ptr base _) = some 2
size_in_bytes (struct r) = some r.size

abbrev pub is_unknown_size : ArraySize → Bool
is_unknown_size unknown_size = true
is_unknown_size (known n) = false

unfoldable pub has_unknown_array_bound : DataType → Bool
has_unknown_array_bound (array base size) = is_unknown_size size || has_unknown_array_bound base
has_unknown_array_bound (guest_ptr base kind) = has_unknown_array_bound base
has_unknown_array_bound (ptr base) = has_unknown_array_bound base
has_unknown_array_bound _ = false

unfoldable pub collapse_unknown_types_to_u32 : DataType → DataType
collapse_unknown_types_to_u32 DataType.unknown = DataType.u32
collapse_unknown_types_to_u32 t = t
