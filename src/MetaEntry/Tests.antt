-- ===== src/MetaEntry/Tests.antt =====
-- The pagemap's entries at concrete words.
use snmalloc.Base.{◌+◌, ◌≡◌, refl, arith, false}
use snmalloc.MetaEntry.{MetaEntry, one, is_backend_owned, encode, is_boundary, assign}
use snmalloc.MetaEntry.{get_remote, get_sizeclass, frontend_entry, word_get}
use snmalloc.MetaEntry.{word_set, is_backend_allowed_value}
use snmalloc.MetaEntry.Laws.{IsWords, encode_roundtrip, word_set_roundtrip}

-- An entry of the front end that starts a reservation, and one of another slab.
abbrev first_entry : MetaEntry
first_entry = record { meta = 8193; remote_and_sizeclass = 4096 + 70 }

abbrev other_entry : MetaEntry
other_entry = record { meta = 12288; remote_and_sizeclass = 8192 + 71 }

first_entry-IsWords : IsWords first_entry
first_entry-IsWords = record { meta_fits = omega arith; remote_fits = omega arith }

copied : (assign first_entry other_entry).meta ≡ 12289
unfolding assign
copied = refl

encode_roundtrip_example :
    let e = frontend_entry 8192 (encode 4096 70) in
    (get_remote e ≡ 4096) × (get_sizeclass e ≡ 70) × (is_backend_owned e ≡ false)
encode_roundtrip_example = encode_roundtrip 8192 4096 70 (omega arith) (omega arith) (omega arith)

word_set_roundtrip_example :
    (word_get one (word_set one first_entry 512) ≡ 512)
    × (is_backend_owned (word_set one first_entry 512) ≡ is_backend_owned first_entry)
    × (is_boundary (word_set one first_entry 512) ≡ is_boundary first_entry)
unfolding is_backend_allowed_value
word_set_roundtrip_example =
    word_set_roundtrip one first_entry 512 first_entry-IsWords (omega arith) refl
