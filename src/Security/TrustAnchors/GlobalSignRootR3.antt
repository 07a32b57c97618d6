-- ===== src/Security/TrustAnchors/GlobalSignRootR3.antt =====
-- src/security/trust_anchors.cpp, kGlobalSignRootR3Der.
use gcad.Base.{[], ◌∷◌}
use gcad.Base.Bytes.{Bytes}

unfoldable pub global_sign_root_r3_der : Bytes
global_sign_root_r3_der =
    0x30 ∷ 0x82 ∷ 0x03 ∷ 0x5f ∷ 0x30 ∷ 0x82 ∷ 0x02 ∷ 0x47 ∷ 0xa0 ∷ 0x03 ∷ 0x02 ∷ 0x01 ∷ 0x02 ∷ 0x02
    ∷ 0x0b ∷ 0x04 ∷ 0x00 ∷ 0x00 ∷ 0x00 ∷ 0x00 ∷ 0x01 ∷ 0x21 ∷ 0x58 ∷ 0x53 ∷ 0x08 ∷ 0xa2 ∷ 0x30
    ∷ 0x0d ∷ 0x06 ∷ 0x09 ∷ 0x2a ∷ 0x86 ∷ 0x48 ∷ 0x86 ∷ 0xf7 ∷ 0x0d ∷ 0x01 ∷ 0x01 ∷ 0x0b ∷ 0x05
    ∷ 0x00 ∷ 0x30 ∷ 0x4c ∷ 0x31 ∷ 0x20 ∷ 0x30 ∷ 0x1e ∷ 0x06 ∷ 0x03 ∷ 0x55 ∷ 0x04 ∷ 0x0b ∷ 0x13
    ∷ 0x17 ∷ 0x47 ∷ 0x6c ∷ 0x6f ∷ 0x62 ∷ 0x61 ∷ 0x6c ∷ 0x53 ∷ 0x69 ∷ 0x67 ∷ 0x6e ∷ 0x20 ∷ 0x52
    ∷ 0x6f ∷ 0x6f ∷ 0x74 ∷ 0x20 ∷ 0x43 ∷ 0x41 ∷ 0x20 ∷ 0x2d ∷ 0x20 ∷ 0x52 ∷ 0x33 ∷ 0x31 ∷ 0x13
    ∷ 0x30 ∷ 0x11 ∷ 0x06 ∷ 0x03 ∷ 0x55 ∷ 0x04 ∷ 0x0a ∷ 0x13 ∷ 0x0a ∷ 0x47 ∷ 0x6c ∷ 0x6f ∷ 0x62
    ∷ 0x61 ∷ 0x6c ∷ 0x53 ∷ 0x69 ∷ 0x67 ∷ 0x6e ∷ 0x31 ∷ 0x13 ∷ 0x30 ∷ 0x11 ∷ 0x06 ∷ 0x03 ∷ 0x55
    ∷ 0x04 ∷ 0x03 ∷ 0x13 ∷ 0x0a ∷ 0x47 ∷ 0x6c ∷ 0x6f ∷ 0x62 ∷ 0x61 ∷ 0x6c ∷ 0x53 ∷ 0x69 ∷ 0x67
    ∷ 0x6e ∷ 0x30 ∷ 0x1e ∷ 0x17 ∷ 0x0d ∷ 0x30 ∷ 0x39 ∷ 0x30 ∷ 0x33 ∷ 0x31 ∷ 0x38 ∷ 0x31 ∷ 0x30
    ∷ 0x30 ∷ 0x30 ∷ 0x30 ∷ 0x30 ∷ 0x5a ∷ 0x17 ∷ 0x0d ∷ 0x32 ∷ 0x39 ∷ 0x30 ∷ 0x33 ∷ 0x31 ∷ 0x38
    ∷ 0x31 ∷ 0x30 ∷ 0x30 ∷ 0x30 ∷ 0x30 ∷ 0x30 ∷ 0x5a ∷ 0x30 ∷ 0x4c ∷ 0x31 ∷ 0x20 ∷ 0x30 ∷ 0x1e
    ∷ 0x06 ∷ 0x03 ∷ 0x55 ∷ 0x04 ∷ 0x0b ∷ 0x13 ∷ 0x17 ∷ 0x47 ∷ 0x6c ∷ 0x6f ∷ 0x62 ∷ 0x61 ∷ 0x6c
    ∷ 0x53 ∷ 0x69 ∷ 0x67 ∷ 0x6e ∷ 0x20 ∷ 0x52 ∷ 0x6f ∷ 0x6f ∷ 0x74 ∷ 0x20 ∷ 0x43 ∷ 0x41 ∷ 0x20
    ∷ 0x2d ∷ 0x20 ∷ 0x52 ∷ 0x33 ∷ 0x31 ∷ 0x13 ∷ 0x30 ∷ 0x11 ∷ 0x06 ∷ 0x03 ∷ 0x55 ∷ 0x04 ∷ 0x0a
    ∷ 0x13 ∷ 0x0a ∷ 0x47 ∷ 0x6c ∷ 0x6f ∷ 0x62 ∷ 0x61 ∷ 0x6c ∷ 0x53 ∷ 0x69 ∷ 0x67 ∷ 0x6e ∷ 0x31
    ∷ 0x13 ∷ 0x30 ∷ 0x11 ∷ 0x06 ∷ 0x03 ∷ 0x55 ∷ 0x04 ∷ 0x03 ∷ 0x13 ∷ 0x0a ∷ 0x47 ∷ 0x6c ∷ 0x6f
    ∷ 0x62 ∷ 0x61 ∷ 0x6c ∷ 0x53 ∷ 0x69 ∷ 0x67 ∷ 0x6e ∷ 0x30 ∷ 0x82 ∷ 0x01 ∷ 0x22 ∷ 0x30 ∷ 0x0d
    ∷ 0x06 ∷ 0x09 ∷ 0x2a ∷ 0x86 ∷ 0x48 ∷ 0x86 ∷ 0xf7 ∷ 0x0d ∷ 0x01 ∷ 0x01 ∷ 0x01 ∷ 0x05 ∷ 0x00
    ∷ 0x03 ∷ 0x82 ∷ 0x01 ∷ 0x0f ∷ 0x00 ∷ 0x30 ∷ 0x82 ∷ 0x01 ∷ 0x0a ∷ 0x02 ∷ 0x82 ∷ 0x01 ∷ 0x01
    ∷ 0x00 ∷ 0xcc ∷ 0x25 ∷ 0x76 ∷ 0x90 ∷ 0x79 ∷ 0x06 ∷ 0x78 ∷ 0x22 ∷ 0x16 ∷ 0xf5 ∷ 0xc0 ∷ 0x83
    ∷ 0xb6 ∷ 0x84 ∷ 0xca ∷ 0x28 ∷ 0x9e ∷ 0xfd ∷ 0x05 ∷ 0x76 ∷ 0x11 ∷ 0xc5 ∷ 0xad ∷ 0x88 ∷ 0x72
    ∷ 0xfc ∷ 0x46 ∷ 0x02 ∷ 0x43 ∷ 0xc7 ∷ 0xb2 ∷ 0x8a ∷ 0x9d ∷ 0x04 ∷ 0x5f ∷ 0x24 ∷ 0xcb ∷ 0x2e
    ∷ 0x4b ∷ 0xe1 ∷ 0x60 ∷ 0x82 ∷ 0x46 ∷ 0xe1 ∷ 0x52 ∷ 0xab ∷ 0x0c ∷ 0x81 ∷ 0x47 ∷ 0x70 ∷ 0x6c
    ∷ 0xdd ∷ 0x64 ∷ 0xd1 ∷ 0xeb ∷ 0xf5 ∷ 0x2c ∷ 0xa3 ∷ 0x0f ∷ 0x82 ∷ 0x3d ∷ 0x0c ∷ 0x2b ∷ 0xae
    ∷ 0x97 ∷ 0xd7 ∷ 0xb6 ∷ 0x14 ∷ 0x86 ∷ 0x10 ∷ 0x79 ∷ 0xbb ∷ 0x3b ∷ 0x13 ∷ 0x80 ∷ 0x77 ∷ 0x8c
    ∷ 0x08 ∷ 0xe1 ∷ 0x49 ∷ 0xd2 ∷ 0x6a ∷ 0x62 ∷ 0x2f ∷ 0x1f ∷ 0x5e ∷ 0xfa ∷ 0x96 ∷ 0x68 ∷ 0xdf
    ∷ 0x89 ∷ 0x27 ∷ 0x95 ∷ 0x38 ∷ 0x9f ∷ 0x06 ∷ 0xd7 ∷ 0x3e ∷ 0xc9 ∷ 0xcb ∷ 0x26 ∷ 0x59 ∷ 0x0d
    ∷ 0x73 ∷ 0xde ∷ 0xb0 ∷ 0xc8 ∷ 0xe9 ∷ 0x26 ∷ 0x0e ∷ 0x83 ∷ 0x15 ∷ 0xc6 ∷ 0xef ∷ 0x5b ∷ 0x8b
    ∷ 0xd2 ∷ 0x04 ∷ 0x60 ∷ 0xca ∷ 0x49 ∷ 0xa6 ∷ 0x28 ∷ 0xf6 ∷ 0x69 ∷ 0x3b ∷ 0xf6 ∷ 0xcb ∷ 0xc8
    ∷ 0x28 ∷ 0x91 ∷ 0xe5 ∷ 0x9d ∷ 0x8a ∷ 0x61 ∷ 0x57 ∷ 0x37 ∷ 0xac ∷ 0x74 ∷ 0x14 ∷ 0xdc ∷ 0x74
    ∷ 0xe0 ∷ 0x3a ∷ 0xee ∷ 0x72 ∷ 0x2f ∷ 0x2e ∷ 0x9c ∷ 0xfb ∷ 0xd0 ∷ 0xbb ∷ 0xbf ∷ 0xf5 ∷ 0x3d
    ∷ 0x00 ∷ 0xe1 ∷ 0x06 ∷ 0x33 ∷ 0xe8 ∷ 0x82 ∷ 0x2b ∷ 0xae ∷ 0x53 ∷ 0xa6 ∷ 0x3a ∷ 0x16 ∷ 0x73
    ∷ 0x8c ∷ 0xdd ∷ 0x41 ∷ 0x0e ∷ 0x20 ∷ 0x3a ∷ 0xc0 ∷ 0xb4 ∷ 0xa7 ∷ 0xa1 ∷ 0xe9 ∷ 0xb2 ∷ 0x4f
    ∷ 0x90 ∷ 0x2e ∷ 0x32 ∷ 0x60 ∷ 0xe9 ∷ 0x57 ∷ 0xcb ∷ 0xb9 ∷ 0x04 ∷ 0x92 ∷ 0x68 ∷ 0x68 ∷ 0xe5
    ∷ 0x38 ∷ 0x26 ∷ 0x60 ∷ 0x75 ∷ 0xb2 ∷ 0x9f ∷ 0x77 ∷ 0xff ∷ 0x91 ∷ 0x14 ∷ 0xef ∷ 0xae ∷ 0x20
    ∷ 0x49 ∷ 0xfc ∷ 0xad ∷ 0x40 ∷ 0x15 ∷ 0x48 ∷ 0xd1 ∷ 0x02 ∷ 0x31 ∷ 0x61 ∷ 0x19 ∷ 0x5e ∷ 0xb8
    ∷ 0x97 ∷ 0xef ∷ 0xad ∷ 0x77 ∷ 0xb7 ∷ 0x64 ∷ 0x9a ∷ 0x7a ∷ 0xbf ∷ 0x5f ∷ 0xc1 ∷ 0x13 ∷ 0xef
    ∷ 0x9b ∷ 0x62 ∷ 0xfb ∷ 0x0d ∷ 0x6c ∷ 0xe0 ∷ 0x54 ∷ 0x69 ∷ 0x16 ∷ 0xa9 ∷ 0x03 ∷ 0xda ∷ 0x6e
    ∷ 0xe9 ∷ 0x83 ∷ 0x93 ∷ 0x71 ∷ 0x76 ∷ 0xc6 ∷ 0x69 ∷ 0x85 ∷ 0x82 ∷ 0x17 ∷ 0x02 ∷ 0x03 ∷ 0x01
    ∷ 0x00 ∷ 0x01 ∷ 0xa3 ∷ 0x42 ∷ 0x30 ∷ 0x40 ∷ 0x30 ∷ 0x0e ∷ 0x06 ∷ 0x03 ∷ 0x55 ∷ 0x1d ∷ 0x0f
    ∷ 0x01 ∷ 0x01 ∷ 0xff ∷ 0x04 ∷ 0x04 ∷ 0x03 ∷ 0x02 ∷ 0x01 ∷ 0x06 ∷ 0x30 ∷ 0x0f ∷ 0x06 ∷ 0x03
    ∷ 0x55 ∷ 0x1d ∷ 0x13 ∷ 0x01 ∷ 0x01 ∷ 0xff ∷ 0x04 ∷ 0x05 ∷ 0x30 ∷ 0x03 ∷ 0x01 ∷ 0x01 ∷ 0xff
    ∷ 0x30 ∷ 0x1d ∷ 0x06 ∷ 0x03 ∷ 0x55 ∷ 0x1d ∷ 0x0e ∷ 0x04 ∷ 0x16 ∷ 0x04 ∷ 0x14 ∷ 0x8f ∷ 0xf0
    ∷ 0x4b ∷ 0x7f ∷ 0xa8 ∷ 0x2e ∷ 0x45 ∷ 0x24 ∷ 0xae ∷ 0x4d ∷ 0x50 ∷ 0xfa ∷ 0x63 ∷ 0x9a ∷ 0x8b
    ∷ 0xde ∷ 0xe2 ∷ 0xdd ∷ 0x1b ∷ 0xbc ∷ 0x30 ∷ 0x0d ∷ 0x06 ∷ 0x09 ∷ 0x2a ∷ 0x86 ∷ 0x48 ∷ 0x86
    ∷ 0xf7 ∷ 0x0d ∷ 0x01 ∷ 0x01 ∷ 0x0b ∷ 0x05 ∷ 0x00 ∷ 0x03 ∷ 0x82 ∷ 0x01 ∷ 0x01 ∷ 0x00 ∷ 0x4b
    ∷ 0x40 ∷ 0xdb ∷ 0xc0 ∷ 0x50 ∷ 0xaa ∷ 0xfe ∷ 0xc8 ∷ 0x0c ∷ 0xef ∷ 0xf7 ∷ 0x96 ∷ 0x54 ∷ 0x45
    ∷ 0x49 ∷ 0xbb ∷ 0x96 ∷ 0x00 ∷ 0x09 ∷ 0x41 ∷ 0xac ∷ 0xb3 ∷ 0x13 ∷ 0x86 ∷ 0x86 ∷ 0x28 ∷ 0x07
    ∷ 0x33 ∷ 0xca ∷ 0x6b ∷ 0xe6 ∷ 0x74 ∷ 0xb9 ∷ 0xba ∷ 0x00 ∷ 0x2d ∷ 0xae ∷ 0xa4 ∷ 0x0a ∷ 0xd3
    ∷ 0xf5 ∷ 0xf1 ∷ 0xf1 ∷ 0x0f ∷ 0x8a ∷ 0xbf ∷ 0x73 ∷ 0x67 ∷ 0x4a ∷ 0x83 ∷ 0xc7 ∷ 0x44 ∷ 0x7b
    ∷ 0x78 ∷ 0xe0 ∷ 0xaf ∷ 0x6e ∷ 0x6c ∷ 0x6f ∷ 0x03 ∷ 0x29 ∷ 0x8e ∷ 0x33 ∷ 0x39 ∷ 0x45 ∷ 0xc3
    ∷ 0x8e ∷ 0xe4 ∷ 0xb9 ∷ 0x57 ∷ 0x6c ∷ 0xaa ∷ 0xfc ∷ 0x12 ∷ 0x96 ∷ 0xec ∷ 0x53 ∷ 0xc6 ∷ 0x2d
    ∷ 0xe4 ∷ 0x24 ∷ 0x6c ∷ 0xb9 ∷ 0x94 ∷ 0x63 ∷ 0xfb ∷ 0xdc ∷ 0x53 ∷ 0x68 ∷ 0x67 ∷ 0x56 ∷ 0x3e
    ∷ 0x83 ∷ 0xb8 ∷ 0xcf ∷ 0x35 ∷ 0x21 ∷ 0xc3 ∷ 0xc9 ∷ 0x68 ∷ 0xfe ∷ 0xce ∷ 0xda ∷ 0xc2 ∷ 0x53
    ∷ 0xaa ∷ 0xcc ∷ 0x90 ∷ 0x8a ∷ 0xe9 ∷ 0xf0 ∷ 0x5d ∷ 0x46 ∷ 0x8c ∷ 0x95 ∷ 0xdd ∷ 0x7a ∷ 0x58
    ∷ 0x28 ∷ 0x1a ∷ 0x2f ∷ 0x1d ∷ 0xde ∷ 0xcd ∷ 0x00 ∷ 0x37 ∷ 0x41 ∷ 0x8f ∷ 0xed ∷ 0x44 ∷ 0x6d
    ∷ 0xd7 ∷ 0x53 ∷ 0x28 ∷ 0x97 ∷ 0x7e ∷ 0xf3 ∷ 0x67 ∷ 0x04 ∷ 0x1e ∷ 0x15 ∷ 0xd7 ∷ 0x8a ∷ 0x96
    ∷ 0xb4 ∷ 0xd3 ∷ 0xde ∷ 0x4c ∷ 0x27 ∷ 0xa4 ∷ 0x4c ∷ 0x1b ∷ 0x73 ∷ 0x73 ∷ 0x76 ∷ 0xf4 ∷ 0x17
    ∷ 0x99 ∷ 0xc2 ∷ 0x1f ∷ 0x7a ∷ 0x0e ∷ 0xe3 ∷ 0x2d ∷ 0x08 ∷ 0xad ∷ 0x0a ∷ 0x1c ∷ 0x2c ∷ 0xff
    ∷ 0x3c ∷ 0xab ∷ 0x55 ∷ 0x0e ∷ 0x0f ∷ 0x91 ∷ 0x7e ∷ 0x36 ∷ 0xeb ∷ 0xc3 ∷ 0x57 ∷ 0x49 ∷ 0xbe
    ∷ 0xe1 ∷ 0x2e ∷ 0x2d ∷ 0x7c ∷ 0x60 ∷ 0x8b ∷ 0xc3 ∷ 0x41 ∷ 0x51 ∷ 0x13 ∷ 0x23 ∷ 0x9d ∷ 0xce
    ∷ 0xf7 ∷ 0x32 ∷ 0x6b ∷ 0x94 ∷ 0x01 ∷ 0xa8 ∷ 0x99 ∷ 0xe7 ∷ 0x2c ∷ 0x33 ∷ 0x1f ∷ 0x3a ∷ 0x3b
    ∷ 0x25 ∷ 0xd2 ∷ 0x86 ∷ 0x40 ∷ 0xce ∷ 0x3b ∷ 0x2c ∷ 0x86 ∷ 0x78 ∷ 0xc9 ∷ 0x61 ∷ 0x2f ∷ 0x14
    ∷ 0xba ∷ 0xee ∷ 0xdb ∷ 0x55 ∷ 0x6f ∷ 0xdf ∷ 0x84 ∷ 0xee ∷ 0x05 ∷ 0x09 ∷ 0x4d ∷ 0xbd ∷ 0x28
    ∷ 0xd8 ∷ 0x72 ∷ 0xce ∷ 0xd3 ∷ 0x62 ∷ 0x50 ∷ 0x65 ∷ 0x1e ∷ 0xeb ∷ 0x92 ∷ 0x97 ∷ 0x83 ∷ 0x31
    ∷ 0xd9 ∷ 0xb3 ∷ 0xb5 ∷ 0xca ∷ 0x47 ∷ 0x58 ∷ 0x3f ∷ 0x5f ∷ []
