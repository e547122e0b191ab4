-- ===== src/Host/RoundTrip/Tests.antt =====
-- The round trip of a list of an optional buffer and a `none`.
use clarity_wasm.Prelude.{ℕ, ◌+◌, ◌≤◌, ◌≡◌, refl, true, List, [], ◌∷◌, ok, arith, replicate}
use clarity_wasm.Clarity.{
  TypeSignature, Values, buffer_type, optional_type, list_type, buffer, some_value, none_value,
  list, nil, cons,
}
use clarity_wasm.Layout.{clar2wasm_ty}
use clarity_wasm.Wasm.ByteMemory.{byte_memory}
use clarity_wasm.Host.Library.{accepting}
use clarity_wasm.Host.Write.{write_to_wasm}
use clarity_wasm.Host.Read.{read_from_wasm_indirect}
use clarity_wasm.Host.RoundTrip.Stored.{Stored}
use clarity_wasm.Host.RoundTrip.Elements.{elements_width}
use clarity_wasm.Host.RoundTrip.Types.{width}
use clarity_wasm.Host.RoundTrip.Values.{
  Storable, StorableElements, of_list, of_element, of_none_left, of_some, of_none, of_buffer,
  read_from_wasm_indirect-write_to_wasm,
}

-- `(list 2 (optional (buff 4)))`
abbrev element_type : TypeSignature
element_type = optional_type (buffer_type 4)

abbrev elements : Values
elements = cons (some_value (buffer (1 ∷ 2 ∷ []))) (cons none_value nil)

abbrev zeros : List ℕ
zeros = replicate 64 0

elements-Storable : StorableElements byte_memory accepting element_type elements (2 + (0 + 0))
elements-Storable =
    of_element (of_some refl (of_buffer {bs = 1 ∷ 2 ∷ []} refl)) (of_element of_none of_none_left)

element_width : width element_type ≡ 12
unfolding clar2wasm_ty
element_width = refl

list-Storable :
    Storable byte_memory accepting
      (list_type 2 element_type)
      (list elements)
      (elements_width (width element_type) elements + (2 + (0 + 0)))
list-Storable =
    of_list (omega (arith, element_width)) (omega (arith, element_width)) refl elements-Storable

room : 4 + width (list_type 2 element_type) ≤ 16
unfolding clar2wasm_ty
room = omega arith

fits : 16 + (elements_width (width element_type) elements + (2 + (0 + 0))) ≤ byte_memory.size zeros
unfolding clar2wasm_ty elements_width
fits = omega arith

read_from_wasm_indirect-write_to_wasm_example :
    (m' : byte_memory.Memory) × (write_to_wasm byte_memory accepting
        (list_type 2 element_type)
        zeros
        4
        16
        (list elements)
        true
      ≡ ok (
        width (list_type 2 element_type),
        elements_width (width element_type) elements + (2 + (0 + 0)),
        m',
      ))
    × Stored byte_memory zeros m' 4
        (width (list_type 2 element_type))
        16
        (elements_width (width element_type) elements + (2 + (0 + 0)))
        (λ m''. read_from_wasm_indirect byte_memory accepting (list_type 2 element_type) m'' 4)
        (list elements)
read_from_wasm_indirect-write_to_wasm_example =
    read_from_wasm_indirect-write_to_wasm byte_memory accepting {t = list_type 2 element_type} zeros
      4 16 tt list-Storable room fits (omega arith)
