-- ===== src/Store/Concrete.antt =====
-- A codec for maps that meets the laws: each text is a zero and its characters, one higher.
use marblerun.Store.Durable.{DataCodecLaws}
use mathlib.Core.List.{append-nil}
use marblerun.Base.{
  Bytes, List, Map, Result, [], err, foreign, ok, refl, suc, zero, ℕ, ◌++◌, ◌∷◌, ◌≡◌, ap, arith,
}
use marblerun.Store.{DataCodec}

encode_text : Bytes → Bytes → Bytes
encode_text [] rest = rest
encode_text (c ∷ s) rest = suc c ∷ encode_text s rest

unfoldable pub encode_map : Map Bytes → Bytes
unfolding encode_text
encode_map [] = []
encode_map ((k, v) ∷ m) = 0 ∷ encode_text k (0 ∷ encode_text v (encode_map m))

-- one character more in front of the text that is being read from the right, with the texts behind
push : ℕ → Bytes × List Bytes → Bytes × List Bytes
push zero (s, l) = ([], s ∷ l)
push (suc c) (s, l) = (c ∷ s, l)

decode_texts : Bytes → Bytes × List Bytes
unfolding push
decode_texts [] = ([], [])
decode_texts (b ∷ rest) = push b (decode_texts rest)

pair_up : List Bytes → Map Bytes
pair_up (k ∷ v ∷ l) = (k, v) ∷ pair_up l
pair_up _ = []

pub decode_map : Bytes → Result (Map Bytes)
decode_map [] = err (foreign "json: unexpected end of JSON input")
decode_map (b ∷ s) = ok (pair_up (decode_texts s).1)

abbrev pub concrete_codec : DataCodec
concrete_codec = record { marshal = λ m. ok (1 ∷ encode_map m); unmarshal = decode_map }

decode-encode_text :
    (s rest : Bytes)
    → decode_texts (encode_text s rest) ≡ (s ++ (decode_texts rest).0, (decode_texts rest).1)
unfolding decode_texts encode_text
decode-encode_text [] rest = refl
decode-encode_text (c ∷ s) rest = rw (decode-encode_text s rest)

-- the keys and values in the order in which they are written
texts : Map Bytes → List Bytes
texts [] = []
texts ((k, v) ∷ m) = k ∷ v ∷ texts m

decode-encode_map : (m : Map Bytes) → decode_texts (encode_map m) ≡ ([], texts m)
unfolding decode_texts encode_map texts
decode-encode_map [] = refl
decode-encode_map ((k, v) ∷ m) = simp (decode-encode_text, decode-encode_map m, append-nil)

pair_up-texts : (m : Map Bytes) → pair_up (texts m) ≡ m
unfolding pair_up texts
pair_up-texts [] = refl
pair_up-texts ((k, v) ∷ m) = ap (λ l. (k, v) ∷ l) (pair_up-texts m)

decode_map-encode_map : (m : Map Bytes) → decode_map (1 ∷ encode_map m) ≡ ok m
unfolding decode_map
decode_map-encode_map m = simp (decode-encode_map, pair_up-texts)

pub concrete_codec-laws : DataCodecLaws concrete_codec
concrete_codec-laws = record {
  not_empty = λ m e. ground arith;
  reads_back = λ m raw e.
      let same : raw ≡ 1 ∷ encode_map m = cc in (m, rw same (decode_map-encode_map m), λ k. refl);
}
