-- ===== src/Examples/Payload.antt =====
-- examples/two_nodes.rs: the format of a message inside a frame.
use peashape.Prelude.{
  ◌+◌, ◌%◌, ◌≤◌, ◌≡◌, refl, ap, ◌∙◌, leb, le→leb, if◌then◌else◌, Option, none, some, [], ◌∷◌, ◌++◌,
  length, length-append, get_elem?, arith,
}
use peashape.Config.{ShapeConfig, Bytes}
use peashape.Externals.{Externals}
use peashape.Frame.{id_size, build_frame}
use peashape.Frame.Layout.{length-random_bytes}
use peashape.Examples.Slices.{
  get_from, get_from-append, get_range, get_range-append, strip_prefix, strip_prefix-append,
}

-- "PESH"
abbrev pub magic : Bytes
magic = 80 ∷ 69 ∷ 83 ∷ 72 ∷ []

-- `none` is the panic of the assertion.
unfoldable pub frame_payload : Bytes → Option Bytes
frame_payload text =
    if leb (length text) 255 then some (magic ++ ((length text % 256) ∷ text)) else none

-- The length, and as many bytes behind it.
abbrev pub read_payload : Bytes → Option Bytes
read_payload rest = elim (get_elem? rest 0) [ none ↦ none | some len ↦ get_range 1 len rest ]

-- What stands behind the marker.
abbrev pub read_rest : Bytes → Option Bytes
read_rest payload = elim (strip_prefix magic payload) [
  | none ↦ none
  | some rest ↦ read_payload rest
]

unfoldable pub extract_payload : Bytes → Option Bytes
extract_payload frame = elim (get_from id_size frame) [
  | none ↦ none
  | some payload ↦ read_rest payload
]

read_payload-append :
    (text padding : Bytes)
    → length text ≤ 255
    → read_payload ((length text % 256) ∷ (text ++ padding)) ≡ some text
read_payload-append text padding h =
    get_range-append ((length text % 256) ∷ []) text padding 1 (length text % 256) refl
      (omega (arith, h))

extract_payload-append :
    (id text padding : Bytes)
    → length id ≡ id_size
    → length text ≤ 255
    → extract_payload (id ++ ((magic ++ ((length text % 256) ∷ text)) ++ padding)) ≡ some text
unfolding extract_payload
extract_payload-append id text padding h k =
    let rest = (length text % 256) ∷ (text ++ padding) in
    ap (λ (o : Option Bytes). elim o [ none ↦ none | some payload ↦ read_rest payload ])
      (get_from-append id (magic ++ rest) id_size h)
    ∙ ap (λ (o : Option Bytes). elim o [ none ↦ none | some r ↦ read_payload r ])
        (strip_prefix-append magic rest)
    ∙ read_payload-append text padding k

frame_payload-some :
    (text : Bytes)
    → length text ≤ 255
    → frame_payload text ≡ some (magic ++ ((length text % 256) ∷ text))
unfolding frame_payload
frame_payload-some text h = rw (le→leb (length text) 255 h) refl

module _ (X : Externals) where
  -- The text comes back out of a frame that was built around its payload.
  pub extract-build_frame :
      (config : ShapeConfig X.Generator) (text : Bytes) (w : X.World)
      → length text ≤ 255
      → (payload : Bytes) × (frame_payload text ≡ some payload)
        × (length payload ≡ 5 + length text)
        × (extract_payload (build_frame X config payload w).frame ≡ some text)
  unfolding build_frame
  extract-build_frame config text w h = (
    magic ++ ((length text % 256) ∷ text),
    frame_payload-some text h,
    omega (arith, length-append magic ((length text % 256) ∷ text)),
    extract_payload-append _ text _ (length-random_bytes X id_size w) h,
  )
