-- ===== src/Security/X509/Names.antt =====
-- The common name of an issuer or a subject is read inside the buffer.
use gcad.Security.Reading.{Parsed, parsed, and_then, copy}
use gcad.Security.Reading.Safe.{and_then-Within, Within-mono, NoFault, then-NoFault}
use gcad.Base.{List, [], ◌∷◌, Option, some, none, arith, length, if_cases, not, All}
use gcad.Base.Bytes.{Bytes, eqb}
use gcad.Security.Asn1.{Element, is_universal, object_identifier_tag}
use gcad.Security.X509.{
  content, children, first_found, attribute_value, common_name_of, attribute_turn, name_turn,
  extract_common_name, sequence_tag, set_tag, common_name_oid,
}
use gcad.Security.X509.Regions.{Fits, children-Fits, copy-IsSlice, IsSlice, oid_to_string-NoFault}

continue-NoFault :
    (later : Parsed (Option Bytes))
    → NoFault later
    → (r : Option Bytes) → NoFault (elim r [ none ↦ later | some found ↦ parsed (some found) ])
continue-NoFault later h none = h
continue-NoFault later h (some found) = tt

module _ (data_ : Bytes) where
  first_found-NoFault :
      (f : Element → Parsed (Option Bytes)) (es : List Element)
      → ((e : Element) → Fits data_ e → NoFault (f e))
      → All (Fits data_) es
      → NoFault (first_found f es)
  first_found-NoFault f [] k h = tt
  first_found-NoFault f (e ∷ es) k (h, rest) =
      then-NoFault (f e) _ (k e h)
        (continue-NoFault (first_found f es) (first_found-NoFault f es k rest))

  pub content-NoFault : (e : Element) → Fits data_ e → NoFault (content data_ e)
  unfolding content
  content-NoFault e h =
      Within-mono (IsSlice data_ 0 (length data_)) (λ _. Unit) (λ _ _. tt)
        (copy data_ e.content_offset e.content_length)
        (copy-IsSlice data_ 0 (length data_) e.content_offset e.content_length (omega arith) h
          (omega arith))

  -- A loop over the children of an element that fits.
  over_children-NoFault :
      {B : Type 0} (e : Element) (f : List Element → Parsed B)
      → Fits data_ e
      → ((es : List Element) → All (Fits data_) es → NoFault (f es))
      → NoFault (and_then (children data_ e) f)
  over_children-NoFault e f h k =
      and_then-Within (All (Fits data_)) (λ _. Unit) (children data_ e) f (children-Fits data_ e h)
        k

  common_name_of-NoFault :
      (es : List Element) → All (Fits data_) es → NoFault (common_name_of data_ es)
  unfolding common_name_of attribute_value
  common_name_of-NoFault [] h = tt
  common_name_of-NoFault (a ∷ []) h = tt
  common_name_of-NoFault (a ∷ (b ∷ (c ∷ es))) h = tt
  common_name_of-NoFault (oid ∷ (value ∷ [])) h =
      if_cases NoFault (not (is_universal object_identifier_tag oid)) (λ _. tt)
        (λ _. then-NoFault _ _ (oid_to_string-NoFault data_ oid h.0) (λ name.
          if_cases NoFault (not (eqb name common_name_oid)) (λ _. tt)
            (λ _.
              then-NoFault _ _
                (then-NoFault (content data_ value) _ (content-NoFault value h.1.0) (λ _. tt))
                (λ _. tt))))

  attribute_turn-NoFault : (e : Element) → Fits data_ e → NoFault (attribute_turn data_ e)
  unfolding attribute_turn
  attribute_turn-NoFault e h =
      if_cases NoFault (not (is_universal sequence_tag e)) (λ _. tt)
        (λ _. over_children-NoFault e _ h common_name_of-NoFault)

  name_turn-NoFault : (e : Element) → Fits data_ e → NoFault (name_turn data_ e)
  unfolding name_turn
  name_turn-NoFault e h =
      if_cases NoFault (not (is_universal set_tag e)) (λ _. tt)
        (λ _.
          over_children-NoFault e _ h
            (λ es. first_found-NoFault (attribute_turn data_) es attribute_turn-NoFault))

  pub extract_common_name-NoFault :
      (e : Element) → Fits data_ e → NoFault (extract_common_name data_ e)
  unfolding extract_common_name
  extract_common_name-NoFault e h = over_children-NoFault e _ h (λ es all.
      then-NoFault _ _ (first_found-NoFault (name_turn data_) es name_turn-NoFault all) (λ _. tt))
