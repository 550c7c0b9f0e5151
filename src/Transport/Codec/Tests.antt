-- ===== src/Transport/Codec/Tests.antt =====
-- The stream's theorems at concrete frames.
use fluxpeer.Prelude.{ℕ, ◌≡◌, refl, List, [], ◌∷◌, ◌++◌, none, All, ok, arith}
use fluxpeer.Prelude.Bytes.{to_be_bytes32, from_be_bytes32}
use fluxpeer.Transport.Codec.{decode}
use fluxpeer.Transport.Codec.Stream.{framed, framed_all, read_all, IsFrame, read_all-framed}

abbrev hello : List ℕ
hello = 104 ∷ 105 ∷ []

abbrev header_of_hello : List ℕ
header_of_hello = 0 ∷ 0 ∷ 0 ∷ 2 ∷ 104 ∷ []

hello_cut : framed hello ≡ header_of_hello ++ (105 ∷ [])
unfolding to_be_bytes32
hello_cut = refl

abbrev items : List (List ℕ)
items = hello ∷ (1 ∷ []) ∷ []

items-IsFrame : All IsFrame items
items-IsFrame = ((omega arith, omega arith), ((omega arith, omega arith), tt))

rest_short : decode header_of_hello ≡ ok (none, header_of_hello)
unfolding decode from_be_bytes32
rest_short = refl

read_all-framed_example :
    read_all 3 (framed_all items ++ header_of_hello) ≡ ok (items, header_of_hello)
read_all-framed_example =
    read_all-framed items header_of_hello 3 items-IsFrame rest_short (omega arith)
