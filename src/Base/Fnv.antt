-- ===== src/Base/Fnv.antt =====
-- Go's hash/fnv: the 64-bit FNV-1a hash, over the UTF-8 bytes of a text.
use Prim.Native.Nat.{ℕ, ◌+◌, ◌*◌, ◌/◌, ◌%◌, ◌^◌, ◌<◌, bit_xor}
use Prim.Native.Char.{code}
use Prim.Native.String.{String}
use mathlib.Core.List.{List, [], ◌∷◌, ◌++◌, foldl}
use native.Mathlib.Omega.{arith}
use opencode_proxy_api.Base.Tests.{ltb, if◌then◌else◌}

-- The UTF-8 bytes of a code point.
utf8 : ℕ → List ℕ
utf8 c =
    if ltb c 0x80
    then c ∷ []
    else if ltb c 0x800
    then (0xC0 + c / 64) ∷ (0x80 + c % 64) ∷ []
    else if ltb c 0x10000
    then (0xE0 + c / 4096) ∷ (0x80 + c / 64 % 64) ∷ (0x80 + c % 64) ∷ []
    else (0xF0 + c / 262144) ∷ (0x80 + c / 4096 % 64) ∷ (0x80 + c / 64 % 64) ∷ (0x80 + c % 64) ∷ []

-- []byte(s)
unfoldable pub bytes : String → List ℕ
unfolding utf8
bytes String.[] = []
bytes (String.◌∷◌ c s) = utf8 (code c) ++ bytes s

-- One byte of Write.
unfoldable pub mix : ℕ → ℕ → ℕ
mix h b = bit_xor h b * 1_099_511_628_211 % 2 ^ 64

-- New64a, Write and Sum64.
unfoldable pub sum64 : String → ℕ
unfolding mix bytes
sum64 s = foldl mix 14_695_981_039_346_656_037 (bytes s)

mix_lt : (h b : ℕ) → mix h b < 2 ^ 64
unfolding mix
mix_lt h b = omega arith

foldl-mix_lt : (h : ℕ) (bs : List ℕ) → h < 2 ^ 64 → foldl mix h bs < 2 ^ 64
foldl-mix_lt h [] k = k
foldl-mix_lt h (b ∷ bs) k = foldl-mix_lt (mix h b) bs (mix_lt h b)

-- The hash is a uint64.
pub sum64_lt : (s : String) → sum64 s < 2 ^ 64
unfolding sum64
sum64_lt s = foldl-mix_lt _ (bytes s) (omega arith)
