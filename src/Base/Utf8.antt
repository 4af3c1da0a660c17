-- ===== src/Base/Utf8.antt =====
-- `str::as_bytes` and `String::from_utf8_lossy`.
use Prim.Native.Nat.{ℕ, ◌+◌, ◌-◌, ◌*◌, ◌/◌, ◌%◌, ◌<◌}
use mathlib.Core.Path.{◌≡◌, refl, ap}
use mathlib.Core.Bool.{◌&&◌}
use mathlib.Core.List.{List, [], ◌∷◌, ◌++◌}
use native.Mathlib.Omega.{}
use wx_btrieve_sql_driver.Base.Tests.{ltb, leb, ◌==◌, if◌then◌else◌, lt→ltb}
use wx_btrieve_sql_driver.Base.Lists.{All}
use wx_btrieve_sql_driver.Base.Text.{Str}

abbrev pub encode_char : ℕ → List ℕ
encode_char c =
    if ltb c 0x80
    then c ∷ []
    else if ltb c 0x800
    then (0xc0 + c / 64) ∷ (0x80 + c % 64) ∷ []
    else if ltb c 0x10000
    then (0xe0 + c / 4096) ∷ (0x80 + c / 64 % 64) ∷ (0x80 + c % 64) ∷ []
    else (0xf0 + c / 262144) ∷ (0x80 + c / 4096 % 64) ∷ (0x80 + c / 64 % 64) ∷ (0x80 + c % 64) ∷ []

unfoldable pub as_bytes : Str → List ℕ
as_bytes [] = []
as_bytes (c ∷ cs) = encode_char c ++ as_bytes cs

-- What the decoder waits for: the bytes left of a sequence, the range of the next one, and the
-- bits so far.
pub data Pending : Type 0 where
  idle : Pending
  more : ℕ → ℕ → ℕ → ℕ → Pending

abbrev pub replacement : ℕ
replacement = 0xfffd

abbrev pub begin : ℕ → Str × Pending
begin b =
    if ltb b 0x80
    then (b ∷ [], idle)
    else if leb 0xc2 b && leb b 0xdf
    then ([], more 1 0x80 0xbf (b - 0xc0))
    else if b == 0xe0
    then ([], more 2 0xa0 0xbf 0)
    else if b == 0xed
    then ([], more 2 0x80 0x9f 0xd)
    else if leb 0xe1 b && leb b 0xef
    then ([], more 2 0x80 0xbf (b - 0xe0))
    else if b == 0xf0
    then ([], more 3 0x90 0xbf 0)
    else if leb 0xf1 b && leb b 0xf3
    then ([], more 3 0x80 0xbf (b - 0xf0))
    else if b == 0xf4
    then ([], more 3 0x80 0x8f 4)
    else (replacement ∷ [], idle)

abbrev pub feed : Pending → ℕ → Str × Pending
feed idle b = begin b
feed (more left lo hi bits) b =
    if leb lo b && leb b hi
    then (if left == 1
        then ((bits * 64 + (b - 0x80)) ∷ [], idle)
        else ([], more (left - 1) 0x80 0xbf (bits * 64 + (b - 0x80))))
    else (let (out, next) = begin b in (replacement ∷ out, next))

abbrev pub decode_from : Pending → List ℕ → Str
decode_from idle [] = []
decode_from (more left lo hi bits) [] = replacement ∷ []
decode_from p (b ∷ bs) = let (out, next) = feed p b in out ++ decode_from next bs

unfoldable pub from_utf8_lossy : List ℕ → Str
from_utf8_lossy bs = decode_from idle bs

abbrev pub IsAscii : ℕ → Type 0
IsAscii c = c < 0x80

pub as_bytes_ascii : (s : Str) → All IsAscii s → as_bytes s ≡ s
unfolding as_bytes
as_bytes_ascii [] h = refl
as_bytes_ascii (c ∷ cs) h = rw (lt→ltb c 0x80 h.0) (ap (λ t. c ∷ t) (as_bytes_ascii cs h.1))

pub from_utf8_lossy_ascii : (s : List ℕ) → All IsAscii s → from_utf8_lossy s ≡ s
unfolding from_utf8_lossy
from_utf8_lossy_ascii [] h = refl
from_utf8_lossy_ascii (c ∷ cs) h =
    rw (lt→ltb c 0x80 h.0) (ap (λ t. c ∷ t) (from_utf8_lossy_ascii cs h.1))

euro : from_utf8_lossy (as_bytes (0x20ac ∷ 0x41 ∷ 0x1f600 ∷ [])) ≡ 0x20ac ∷ 0x41 ∷ 0x1f600 ∷ []
unfolding from_utf8_lossy as_bytes
euro = refl

invalid_bytes :
    from_utf8_lossy (0x41 ∷ 0xe2 ∷ 0x82 ∷ 0x42 ∷ 0xff ∷ []) ≡ 0x41 ∷ 0xfffd ∷ 0x42 ∷ 0xfffd ∷ []
unfolding from_utf8_lossy
invalid_bytes = refl
