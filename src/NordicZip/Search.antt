-- ===== src/NordicZip/Search.antt =====
-- The search for the signature of a header, `_search_signature` in src/binary-format-nordic-zip.c.
pub mod Decides
use libdfu.Base.{
  ℕ, zero, suc, ◌+◌, Bool, true, false, not, ◌&&◌, Option, none, some, ◌==◌, if◌then◌else◌,
}
use libdfu.BinaryFile.{BinaryFile, bf_count}
use libdfu.Ihex.{next}
use libdfu.NordicZip.{HeaderType, local_header, central_header, end_central_header, byte_at}

-- What the search comes to: too few bytes, or a signature, with the bytes that it says were consumed.
pub data Searched : Type 0 where
  not_enough : Searched
  found : ℕ → ℕ → HeaderType → Searched

-- The type of the header by the third byte of its signature; the fourth is one more.
abbrev pub type_of : ℕ → Option HeaderType
type_of b =
    if b == 1
    then some central_header
    else if b == 3
    then some local_header
    else if b == 5
    then some end_central_header
    else none

-- From the third byte of a signature on; `third` and `last` are the searches that go on there and at the
-- fourth byte.
unfoldable pub by_third :
    BinaryFile → ℕ → ℕ → ℕ → Option Searched → Option Searched → Option HeaderType → Option Searched
by_third bf start i2 consumed third last none = third
by_third bf start i2 consumed third last (some t) =
    let i3 = next bf i2 in
    if i3 == bf.head
    then some not_enough
    else if byte_at bf i3 == byte_at bf i2 + 1
    then some (found (consumed + 4) start t)
    else last

-- The loop from an index on; `none` is for a loop that has not ended after `n` of its steps, one for each
-- byte that is not the first of a signature and one for each round.
unfoldable pub search : ℕ → BinaryFile → ℕ → ℕ → Option Searched
unfolding by_third
search zero bf index consumed = none
search (suc n) bf index consumed =
    let i1 = next bf index in
    let i2 = next bf i1 in
    let i3 = next bf i2 in
    let skip = search n bf i1 (consumed + 1) in
    let second = search n bf i1 (consumed + 2) in
    let third = search n bf i2 (consumed + 3) in
    let last = search n bf i3 (consumed + 4) in
    if not (byte_at bf index == 80) && not (index == bf.head)
    then skip
    else if index == bf.head
    then some not_enough
    else if i1 == bf.head
    then some not_enough
    else if not (byte_at bf i1 == 75)
    then second
    else if i2 == bf.head
    then some not_enough
    else by_third bf index i2 consumed third last (type_of (byte_at bf i2))

-- `_search_signature`
unfoldable pub search_signature : BinaryFile → Option Searched
search_signature bf = search (bf_count bf + 1) bf bf.tail 0
