-- ===== src/Tests/Der.antt =====
-- SEQUENCE { INTEGER 0x00ff, OBJECT IDENTIFIER 1.2.840 }.
use gcad.Security.Reading.{Parsed}
use gcad.Security.Reading.Safe.{Within}
use gcad.Base.{◌+◌, ◌≡◌, refl, false, [], ◌∷◌, some, arith}
use gcad.Base.Bytes.{Bytes}
use gcad.Security.Asn1.{Element, TagClass, parse_element, parse_sequence_children}
use gcad.Security.Asn1.Bounds.{IsInside, parse_element-Within}
use gcad.Security.Asn1.Siblings.{Tiles, parse_sequence_children-Tiles}

abbrev der : Bytes
der = 0x30 ∷ 9 ∷ 2 ∷ 2 ∷ 0 ∷ 0xff ∷ 6 ∷ 3 ∷ 0x2a ∷ 0x86 ∷ 0x48 ∷ []

abbrev the_integer : Element
the_integer = record {
  tag_class = TagClass.universal;
  constructed = false;
  tag_number = 2;
  content_offset = 4;
  content_length = 2;
  total_length = 4;
}

abbrev the_oid : Element
the_oid = record {
  tag_class = TagClass.universal;
  constructed = false;
  tag_number = 6;
  content_offset = 8;
  content_length = 3;
  total_length = 5;
}

parse_element-Within_example : Within (IsInside 11 0) (parse_element (some der) 11 0)
parse_element-Within_example = parse_element-Within der 11 (omega arith) 0

parse_sequence_children-Tiles_example :
    Within (Tiles der (2 + 9) 2) (parse_sequence_children (some der) 2 9)
parse_sequence_children-Tiles_example = parse_sequence_children-Tiles der 2 9 (omega arith)

children_test : parse_sequence_children (some der) 2 9 ≡ Parsed.parsed (the_integer ∷ the_oid ∷ [])
unfolding parse_sequence_children
children_test = refl
