-- ===== src/Generator/Literals/Text.antt =====
-- What the literals of clar2wasm/src/wasm_generator.rs take from the `clarity` crate and from
-- `String`. They are not part of the repository: here are their operations, and what their
-- documentation says of them.
use clarity_wasm.Prelude.{ℕ, ◌≡◌, refl, List, ◌∷◌, Option, some}

pub record TextLibrary : Type 0 where
  -- `ASCIIData::to_string`: the characters, escaped, between quotes.
  pub ascii_to_string : List ℕ → List ℕ
  -- `String::from_utf8`; the text is given by its bytes.
  pub from_utf8 : List ℕ → Option (List ℕ)
  -- `str::chars`, each as a `u32`
  pub chars : List ℕ → List ℕ
  pub ascii_to_string_quoted : (d : List ℕ) → (r : List ℕ) × (ascii_to_string d ≡ 34 ∷ r)
  pub ascii_to_string_injective : {d e : List ℕ} → ascii_to_string d ≡ ascii_to_string e → d ≡ e

pub quotes_injective : {d e : List ℕ} → 34 ∷ d ≡ 34 ∷ e → d ≡ e
quotes_injective h = cc

-- Strings that need no escapes, and texts of one-byte characters.
abbrev pub plain_text : TextLibrary
plain_text = record {
  ascii_to_string = λ d. 34 ∷ d;
  from_utf8 = λ bs. some bs;
  chars = λ bs. bs;
  ascii_to_string_quoted = λ d. (d, refl);
  ascii_to_string_injective = quotes_injective;
}
