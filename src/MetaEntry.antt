-- ===== src/MetaEntry.antt =====
-- src/snmalloc/mem/metadata.h, `MetaEntryBase` and `FrontendMetaEntry`: the two words that the
-- pagemap keeps for each chunk, which the front end and the back end share. Pointers are their
-- addresses; SIZECLASS_REP_SIZE is 128, so the marker of the back end is bit 7.
pub mod Laws
mod Tests
use snmalloc.Base.{ℕ, ◌+◌, ◌-◌, ◌%◌, bit_and, bit_or, Bool, true, false, ◌&&◌, ◌||◌, ◌==◌}
use snmalloc.Base.{if◌then◌else◌, not}
use snmalloc.Bits.{word, complement, align_down}

abbrev pub remote_backend_marker : ℕ
remote_backend_marker = 128

abbrev pub meta_boundary_bit : ℕ
meta_boundary_bit = 1

abbrev pub remote_with_backend_marker_align : ℕ
remote_with_backend_marker_align = remote_backend_marker

-- (REMOTE_BACKEND_MARKER << 1) - 1
abbrev pub backend_reserved_mask : ℕ
backend_reserved_mask = 255

pub record MetaEntry : Type 0 where
  pub meta : ℕ
  pub remote_and_sizeclass : ℕ

unfoldable pub is_backend_owned : MetaEntry → Bool
is_backend_owned e = bit_and e.remote_and_sizeclass remote_backend_marker == remote_backend_marker

unfoldable pub is_unowned : MetaEntry → Bool
is_unowned e = (e.meta == 0 || e.meta == meta_boundary_bit) && e.remote_and_sizeclass == 0

-- `sizeclass` is the raw value of a `sizeclass_t`.
unfoldable pub encode : ℕ → ℕ → ℕ
encode remote sizeclass = (remote + sizeclass) % word

unfoldable pub is_boundary : MetaEntry → Bool
is_boundary e = not (bit_and e.meta meta_boundary_bit == 0)

unfoldable pub set_boundary : MetaEntry → MetaEntry
set_boundary e = record e { meta = bit_or e.meta meta_boundary_bit }

unfoldable pub clear_boundary_bit : MetaEntry → MetaEntry
clear_boundary_bit e = record e { meta = bit_and e.meta (complement meta_boundary_bit) }

-- `operator=`, onto the entry `e`.
unfoldable pub assign : MetaEntry → MetaEntry → MetaEntry
assign e other = record {
  meta =
      bit_or (bit_and other.meta (complement meta_boundary_bit)) (bit_and e.meta meta_boundary_bit);
  remote_and_sizeclass = other.remote_and_sizeclass;
}

unfoldable pub get_remote : MetaEntry → ℕ
get_remote e = align_down e.remote_and_sizeclass remote_with_backend_marker_align

unfoldable pub is_owned : MetaEntry → Bool
is_owned e = not (get_remote e == 0)

unfoldable pub get_sizeclass : MetaEntry → ℕ
get_sizeclass e = bit_and e.remote_and_sizeclass (remote_with_backend_marker_align - 1)

unfoldable pub get_slab_metadata : MetaEntry → ℕ
get_slab_metadata e = bit_and e.meta (complement meta_boundary_bit)

unfoldable pub claim_for_backend : MetaEntry → MetaEntry
claim_for_backend e = record {
  meta = if is_boundary e then meta_boundary_bit else 0;
  remote_and_sizeclass = remote_backend_marker;
}

-- The enumeration `Word`, which names one of the two fields.
pub data Word : Type 0 where
  one two : Word

unfoldable pub is_backend_allowed_value : Word → ℕ → Bool
is_backend_allowed_value w val = bit_and val backend_reserved_mask == 0

-- `get_backend_word` claims the entry if need be; the reference that it returns is the pair of
-- the entry and the name of the field.
unfoldable pub get_backend_word : MetaEntry → MetaEntry
get_backend_word e = if is_backend_owned e then e else claim_for_backend e

abbrev pub field : Word → MetaEntry → ℕ
field one e = e.meta
field two e = e.remote_and_sizeclass

abbrev pub put_field : Word → MetaEntry → ℕ → MetaEntry
put_field one e v = record e { meta = v }
put_field two e v = record e { remote_and_sizeclass = v }

-- `BackendStateWordRef::get` and its assignment of a value.
unfoldable pub word_get : Word → MetaEntry → ℕ
word_get w e = bit_and (field w e) (complement backend_reserved_mask)

unfoldable pub word_set : Word → MetaEntry → ℕ → MetaEntry
word_set w e v = put_field w e (bit_or v (bit_and (field w e) backend_reserved_mask))

-- The constructor of `FrontendMetaEntry`: it clears the marker in its argument after it has
-- stored it.
unfoldable pub frontend_entry : ℕ → ℕ → MetaEntry
frontend_entry meta remote_and_sizeclass = record {
  meta = meta;
  remote_and_sizeclass = remote_and_sizeclass;
}
