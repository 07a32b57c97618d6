-- ===== src/Security/TrustAnchors/MicrosoftRoot2011.antt =====
-- src/security/trust_anchors.cpp, kMicrosoftRoot2011Der.
use gcad.Base.{[], ◌∷◌}
use gcad.Base.Bytes.{Bytes}

unfoldable pub microsoft_root_2011_der : Bytes
microsoft_root_2011_der =
    0x30 ∷ 0x82 ∷ 0x05 ∷ 0xed ∷ 0x30 ∷ 0x82 ∷ 0x03 ∷ 0xd5 ∷ 0xa0 ∷ 0x03 ∷ 0x02 ∷ 0x01 ∷ 0x02 ∷ 0x02
    ∷ 0x10 ∷ 0x3f ∷ 0x8b ∷ 0xc8 ∷ 0xb5 ∷ 0xfc ∷ 0x9f ∷ 0xb2 ∷ 0x96 ∷ 0x43 ∷ 0xb5 ∷ 0x69 ∷ 0xd6
    ∷ 0x6c ∷ 0x42 ∷ 0xe1 ∷ 0x44 ∷ 0x30 ∷ 0x0d ∷ 0x06 ∷ 0x09 ∷ 0x2a ∷ 0x86 ∷ 0x48 ∷ 0x86 ∷ 0xf7
    ∷ 0x0d ∷ 0x01 ∷ 0x01 ∷ 0x0b ∷ 0x05 ∷ 0x00 ∷ 0x30 ∷ 0x81 ∷ 0x88 ∷ 0x31 ∷ 0x0b ∷ 0x30 ∷ 0x09
    ∷ 0x06 ∷ 0x03 ∷ 0x55 ∷ 0x04 ∷ 0x06 ∷ 0x13 ∷ 0x02 ∷ 0x55 ∷ 0x53 ∷ 0x31 ∷ 0x13 ∷ 0x30 ∷ 0x11
    ∷ 0x06 ∷ 0x03 ∷ 0x55 ∷ 0x04 ∷ 0x08 ∷ 0x13 ∷ 0x0a ∷ 0x57 ∷ 0x61 ∷ 0x73 ∷ 0x68 ∷ 0x69 ∷ 0x6e
    ∷ 0x67 ∷ 0x74 ∷ 0x6f ∷ 0x6e ∷ 0x31 ∷ 0x10 ∷ 0x30 ∷ 0x0e ∷ 0x06 ∷ 0x03 ∷ 0x55 ∷ 0x04 ∷ 0x07
    ∷ 0x13 ∷ 0x07 ∷ 0x52 ∷ 0x65 ∷ 0x64 ∷ 0x6d ∷ 0x6f ∷ 0x6e ∷ 0x64 ∷ 0x31 ∷ 0x1e ∷ 0x30 ∷ 0x1c
    ∷ 0x06 ∷ 0x03 ∷ 0x55 ∷ 0x04 ∷ 0x0a ∷ 0x13 ∷ 0x15 ∷ 0x4d ∷ 0x69 ∷ 0x63 ∷ 0x72 ∷ 0x6f ∷ 0x73
    ∷ 0x6f ∷ 0x66 ∷ 0x74 ∷ 0x20 ∷ 0x43 ∷ 0x6f ∷ 0x72 ∷ 0x70 ∷ 0x6f ∷ 0x72 ∷ 0x61 ∷ 0x74 ∷ 0x69
    ∷ 0x6f ∷ 0x6e ∷ 0x31 ∷ 0x32 ∷ 0x30 ∷ 0x30 ∷ 0x06 ∷ 0x03 ∷ 0x55 ∷ 0x04 ∷ 0x03 ∷ 0x13 ∷ 0x29
    ∷ 0x4d ∷ 0x69 ∷ 0x63 ∷ 0x72 ∷ 0x6f ∷ 0x73 ∷ 0x6f ∷ 0x66 ∷ 0x74 ∷ 0x20 ∷ 0x52 ∷ 0x6f ∷ 0x6f
    ∷ 0x74 ∷ 0x20 ∷ 0x43 ∷ 0x65 ∷ 0x72 ∷ 0x74 ∷ 0x69 ∷ 0x66 ∷ 0x69 ∷ 0x63 ∷ 0x61 ∷ 0x74 ∷ 0x65
    ∷ 0x20 ∷ 0x41 ∷ 0x75 ∷ 0x74 ∷ 0x68 ∷ 0x6f ∷ 0x72 ∷ 0x69 ∷ 0x74 ∷ 0x79 ∷ 0x20 ∷ 0x32 ∷ 0x30
    ∷ 0x31 ∷ 0x31 ∷ 0x30 ∷ 0x1e ∷ 0x17 ∷ 0x0d ∷ 0x31 ∷ 0x31 ∷ 0x30 ∷ 0x33 ∷ 0x32 ∷ 0x32 ∷ 0x32
    ∷ 0x32 ∷ 0x30 ∷ 0x35 ∷ 0x32 ∷ 0x38 ∷ 0x5a ∷ 0x17 ∷ 0x0d ∷ 0x33 ∷ 0x36 ∷ 0x30 ∷ 0x33 ∷ 0x32
    ∷ 0x32 ∷ 0x32 ∷ 0x32 ∷ 0x31 ∷ 0x33 ∷ 0x30 ∷ 0x34 ∷ 0x5a ∷ 0x30 ∷ 0x81 ∷ 0x88 ∷ 0x31 ∷ 0x0b
    ∷ 0x30 ∷ 0x09 ∷ 0x06 ∷ 0x03 ∷ 0x55 ∷ 0x04 ∷ 0x06 ∷ 0x13 ∷ 0x02 ∷ 0x55 ∷ 0x53 ∷ 0x31 ∷ 0x13
    ∷ 0x30 ∷ 0x11 ∷ 0x06 ∷ 0x03 ∷ 0x55 ∷ 0x04 ∷ 0x08 ∷ 0x13 ∷ 0x0a ∷ 0x57 ∷ 0x61 ∷ 0x73 ∷ 0x68
    ∷ 0x69 ∷ 0x6e ∷ 0x67 ∷ 0x74 ∷ 0x6f ∷ 0x6e ∷ 0x31 ∷ 0x10 ∷ 0x30 ∷ 0x0e ∷ 0x06 ∷ 0x03 ∷ 0x55
    ∷ 0x04 ∷ 0x07 ∷ 0x13 ∷ 0x07 ∷ 0x52 ∷ 0x65 ∷ 0x64 ∷ 0x6d ∷ 0x6f ∷ 0x6e ∷ 0x64 ∷ 0x31 ∷ 0x1e
    ∷ 0x30 ∷ 0x1c ∷ 0x06 ∷ 0x03 ∷ 0x55 ∷ 0x04 ∷ 0x0a ∷ 0x13 ∷ 0x15 ∷ 0x4d ∷ 0x69 ∷ 0x63 ∷ 0x72
    ∷ 0x6f ∷ 0x73 ∷ 0x6f ∷ 0x66 ∷ 0x74 ∷ 0x20 ∷ 0x43 ∷ 0x6f ∷ 0x72 ∷ 0x70 ∷ 0x6f ∷ 0x72 ∷ 0x61
    ∷ 0x74 ∷ 0x69 ∷ 0x6f ∷ 0x6e ∷ 0x31 ∷ 0x32 ∷ 0x30 ∷ 0x30 ∷ 0x06 ∷ 0x03 ∷ 0x55 ∷ 0x04 ∷ 0x03
    ∷ 0x13 ∷ 0x29 ∷ 0x4d ∷ 0x69 ∷ 0x63 ∷ 0x72 ∷ 0x6f ∷ 0x73 ∷ 0x6f ∷ 0x66 ∷ 0x74 ∷ 0x20 ∷ 0x52
    ∷ 0x6f ∷ 0x6f ∷ 0x74 ∷ 0x20 ∷ 0x43 ∷ 0x65 ∷ 0x72 ∷ 0x74 ∷ 0x69 ∷ 0x66 ∷ 0x69 ∷ 0x63 ∷ 0x61
    ∷ 0x74 ∷ 0x65 ∷ 0x20 ∷ 0x41 ∷ 0x75 ∷ 0x74 ∷ 0x68 ∷ 0x6f ∷ 0x72 ∷ 0x69 ∷ 0x74 ∷ 0x79 ∷ 0x20
    ∷ 0x32 ∷ 0x30 ∷ 0x31 ∷ 0x31 ∷ 0x30 ∷ 0x82 ∷ 0x02 ∷ 0x22 ∷ 0x30 ∷ 0x0d ∷ 0x06 ∷ 0x09 ∷ 0x2a
    ∷ 0x86 ∷ 0x48 ∷ 0x86 ∷ 0xf7 ∷ 0x0d ∷ 0x01 ∷ 0x01 ∷ 0x01 ∷ 0x05 ∷ 0x00 ∷ 0x03 ∷ 0x82 ∷ 0x02
    ∷ 0x0f ∷ 0x00 ∷ 0x30 ∷ 0x82 ∷ 0x02 ∷ 0x0a ∷ 0x02 ∷ 0x82 ∷ 0x02 ∷ 0x01 ∷ 0x00 ∷ 0xb2 ∷ 0x80
    ∷ 0x41 ∷ 0xaa ∷ 0x35 ∷ 0x38 ∷ 0x4d ∷ 0x13 ∷ 0x72 ∷ 0x32 ∷ 0x68 ∷ 0x22 ∷ 0x4d ∷ 0xb8 ∷ 0xb2
    ∷ 0xf1 ∷ 0xff ∷ 0xd5 ∷ 0x52 ∷ 0xbc ∷ 0x6c ∷ 0xc7 ∷ 0xf5 ∷ 0xd2 ∷ 0x4a ∷ 0x8c ∷ 0x36 ∷ 0xee
    ∷ 0xd1 ∷ 0xc2 ∷ 0x5c ∷ 0x7e ∷ 0x8c ∷ 0x8a ∷ 0xae ∷ 0xaf ∷ 0x13 ∷ 0x28 ∷ 0x6f ∷ 0xc0 ∷ 0x73
    ∷ 0xe3 ∷ 0x3a ∷ 0xce ∷ 0xd0 ∷ 0x25 ∷ 0xa8 ∷ 0x5a ∷ 0x3a ∷ 0x6d ∷ 0xef ∷ 0xa8 ∷ 0xb8 ∷ 0x59
    ∷ 0xab ∷ 0x13 ∷ 0x23 ∷ 0x68 ∷ 0xcd ∷ 0x0c ∷ 0x29 ∷ 0x87 ∷ 0xd1 ∷ 0x6f ∷ 0x80 ∷ 0x5c ∷ 0x8f
    ∷ 0x44 ∷ 0x7f ∷ 0x5d ∷ 0x90 ∷ 0x01 ∷ 0x52 ∷ 0x58 ∷ 0xac ∷ 0x51 ∷ 0xc5 ∷ 0x5f ∷ 0x2a ∷ 0x87
    ∷ 0xdc ∷ 0xdc ∷ 0xd8 ∷ 0x0a ∷ 0x1d ∷ 0xc1 ∷ 0x03 ∷ 0xb9 ∷ 0x7b ∷ 0xb0 ∷ 0x56 ∷ 0xe8 ∷ 0xa3
    ∷ 0xde ∷ 0x64 ∷ 0x61 ∷ 0xc2 ∷ 0x9e ∷ 0xf8 ∷ 0xf3 ∷ 0x7c ∷ 0xb9 ∷ 0xec ∷ 0x0d ∷ 0xb5 ∷ 0x54
    ∷ 0xfe ∷ 0x4c ∷ 0xb6 ∷ 0x65 ∷ 0x4f ∷ 0x88 ∷ 0xf0 ∷ 0x9c ∷ 0x48 ∷ 0x99 ∷ 0x0c ∷ 0x42 ∷ 0x0b
    ∷ 0x09 ∷ 0x7c ∷ 0x31 ∷ 0x59 ∷ 0x17 ∷ 0x79 ∷ 0x06 ∷ 0x78 ∷ 0x28 ∷ 0x8d ∷ 0x89 ∷ 0x3a ∷ 0x4c
    ∷ 0x03 ∷ 0x25 ∷ 0xbe ∷ 0x71 ∷ 0x6a ∷ 0x5c ∷ 0x0b ∷ 0xe7 ∷ 0x84 ∷ 0x60 ∷ 0xa4 ∷ 0x99 ∷ 0x22
    ∷ 0xe3 ∷ 0xd2 ∷ 0xaf ∷ 0x84 ∷ 0xa4 ∷ 0xa7 ∷ 0xfb ∷ 0xd1 ∷ 0x98 ∷ 0xed ∷ 0x0c ∷ 0xa9 ∷ 0xde
    ∷ 0x94 ∷ 0x89 ∷ 0xe1 ∷ 0x0e ∷ 0xa0 ∷ 0xdc ∷ 0xc0 ∷ 0xce ∷ 0x99 ∷ 0x3d ∷ 0xea ∷ 0x08 ∷ 0x52
    ∷ 0xbb ∷ 0x56 ∷ 0x79 ∷ 0xe4 ∷ 0x1f ∷ 0x84 ∷ 0xba ∷ 0x1e ∷ 0xb8 ∷ 0xb4 ∷ 0xc4 ∷ 0x49 ∷ 0x5c
    ∷ 0x4f ∷ 0x31 ∷ 0x4b ∷ 0x87 ∷ 0xdd ∷ 0xdd ∷ 0x05 ∷ 0x67 ∷ 0x26 ∷ 0x99 ∷ 0x80 ∷ 0xe0 ∷ 0x71
    ∷ 0x11 ∷ 0xa3 ∷ 0xb8 ∷ 0xa5 ∷ 0x41 ∷ 0xe2 ∷ 0xa4 ∷ 0x53 ∷ 0xb9 ∷ 0xf7 ∷ 0x32 ∷ 0x29 ∷ 0x83
    ∷ 0x0c ∷ 0x13 ∷ 0xbf ∷ 0x36 ∷ 0x5e ∷ 0x04 ∷ 0xb3 ∷ 0x4b ∷ 0x43 ∷ 0x47 ∷ 0x2f ∷ 0x6b ∷ 0xe2
    ∷ 0x91 ∷ 0x1e ∷ 0xd3 ∷ 0x98 ∷ 0x4f ∷ 0xdd ∷ 0x42 ∷ 0x07 ∷ 0xc8 ∷ 0xe8 ∷ 0x1d ∷ 0x12 ∷ 0xfc
    ∷ 0x99 ∷ 0xa9 ∷ 0x6b ∷ 0x3e ∷ 0x92 ∷ 0x7e ∷ 0xc8 ∷ 0xd6 ∷ 0x69 ∷ 0x3a ∷ 0xfc ∷ 0x64 ∷ 0xbd
    ∷ 0xb6 ∷ 0x09 ∷ 0x9d ∷ 0xca ∷ 0xfd ∷ 0x0c ∷ 0x0b ∷ 0xa2 ∷ 0x9b ∷ 0x77 ∷ 0x60 ∷ 0x4b ∷ 0x03
    ∷ 0x94 ∷ 0xa4 ∷ 0x30 ∷ 0x69 ∷ 0x12 ∷ 0xd6 ∷ 0x42 ∷ 0x2d ∷ 0xc1 ∷ 0x41 ∷ 0x4c ∷ 0xca ∷ 0xdc
    ∷ 0xaa ∷ 0xfd ∷ 0x8f ∷ 0x5b ∷ 0x83 ∷ 0x46 ∷ 0x9a ∷ 0xd9 ∷ 0xfc ∷ 0xb1 ∷ 0xd1 ∷ 0xe3 ∷ 0xb3
    ∷ 0xc9 ∷ 0x7f ∷ 0x48 ∷ 0x7a ∷ 0xcd ∷ 0x24 ∷ 0xf0 ∷ 0x41 ∷ 0x8f ∷ 0x5c ∷ 0x74 ∷ 0xd0 ∷ 0xac
    ∷ 0xb0 ∷ 0x10 ∷ 0x20 ∷ 0x06 ∷ 0x49 ∷ 0xb7 ∷ 0xc7 ∷ 0x2d ∷ 0x21 ∷ 0xc8 ∷ 0x57 ∷ 0xe3 ∷ 0xd0
    ∷ 0x86 ∷ 0xf3 ∷ 0x03 ∷ 0x68 ∷ 0xfb ∷ 0xd0 ∷ 0xce ∷ 0x71 ∷ 0xc1 ∷ 0x89 ∷ 0x99 ∷ 0x4a ∷ 0x64
    ∷ 0x01 ∷ 0x6c ∷ 0xfd ∷ 0xec ∷ 0x30 ∷ 0x91 ∷ 0xcf ∷ 0x41 ∷ 0x3c ∷ 0x92 ∷ 0xc7 ∷ 0xe5 ∷ 0xba
    ∷ 0x86 ∷ 0x1d ∷ 0x61 ∷ 0x84 ∷ 0xc7 ∷ 0x5f ∷ 0x83 ∷ 0x39 ∷ 0x62 ∷ 0xae ∷ 0xb4 ∷ 0x92 ∷ 0x2f
    ∷ 0x47 ∷ 0xf3 ∷ 0x0b ∷ 0xf8 ∷ 0x55 ∷ 0xeb ∷ 0xa0 ∷ 0x1f ∷ 0x59 ∷ 0xd0 ∷ 0xbb ∷ 0x74 ∷ 0x9b
    ∷ 0x1e ∷ 0xd0 ∷ 0x76 ∷ 0xe6 ∷ 0xf2 ∷ 0xe9 ∷ 0x06 ∷ 0xd7 ∷ 0x10 ∷ 0xe8 ∷ 0xfa ∷ 0x64 ∷ 0xde
    ∷ 0x69 ∷ 0xc6 ∷ 0x35 ∷ 0x96 ∷ 0x88 ∷ 0x02 ∷ 0xf0 ∷ 0x46 ∷ 0xb8 ∷ 0x3f ∷ 0x27 ∷ 0x99 ∷ 0x6f
    ∷ 0xcb ∷ 0x71 ∷ 0x89 ∷ 0x29 ∷ 0x35 ∷ 0xf7 ∷ 0x48 ∷ 0x16 ∷ 0x02 ∷ 0x35 ∷ 0x8f ∷ 0xd5 ∷ 0x79
    ∷ 0x7c ∷ 0x4d ∷ 0x02 ∷ 0xcf ∷ 0x5f ∷ 0xeb ∷ 0x8a ∷ 0x83 ∷ 0x4f ∷ 0x45 ∷ 0x71 ∷ 0x88 ∷ 0xf9
    ∷ 0xa9 ∷ 0x0d ∷ 0x4e ∷ 0x72 ∷ 0xe9 ∷ 0xc2 ∷ 0x9c ∷ 0x07 ∷ 0xcf ∷ 0x49 ∷ 0x1b ∷ 0x4e ∷ 0x04
    ∷ 0x0e ∷ 0x63 ∷ 0x51 ∷ 0x8c ∷ 0x5e ∷ 0xd8 ∷ 0x00 ∷ 0xc1 ∷ 0x55 ∷ 0x2c ∷ 0xb6 ∷ 0xc6 ∷ 0xe0
    ∷ 0xc2 ∷ 0x65 ∷ 0x4e ∷ 0xc9 ∷ 0x34 ∷ 0x39 ∷ 0xf5 ∷ 0x9c ∷ 0xb3 ∷ 0xc4 ∷ 0x7e ∷ 0xe8 ∷ 0x61
    ∷ 0x6e ∷ 0x13 ∷ 0x5f ∷ 0x15 ∷ 0xc4 ∷ 0x5f ∷ 0xd9 ∷ 0x7e ∷ 0xed ∷ 0x1d ∷ 0xce ∷ 0xee ∷ 0x44
    ∷ 0xec ∷ 0xcb ∷ 0x2e ∷ 0x86 ∷ 0xb1 ∷ 0xec ∷ 0x38 ∷ 0xf6 ∷ 0x70 ∷ 0xed ∷ 0xab ∷ 0x5c ∷ 0x13
    ∷ 0xc1 ∷ 0xd9 ∷ 0x0f ∷ 0x0d ∷ 0xc7 ∷ 0x80 ∷ 0xb2 ∷ 0x55 ∷ 0xed ∷ 0x34 ∷ 0xf7 ∷ 0xac ∷ 0x9b
    ∷ 0xe4 ∷ 0xc3 ∷ 0xda ∷ 0xe7 ∷ 0x47 ∷ 0x3c ∷ 0xa6 ∷ 0xb5 ∷ 0x8f ∷ 0x31 ∷ 0xdf ∷ 0xc5 ∷ 0x4b
    ∷ 0xaf ∷ 0xeb ∷ 0xf1 ∷ 0x02 ∷ 0x03 ∷ 0x01 ∷ 0x00 ∷ 0x01 ∷ 0xa3 ∷ 0x51 ∷ 0x30 ∷ 0x4f ∷ 0x30
    ∷ 0x0b ∷ 0x06 ∷ 0x03 ∷ 0x55 ∷ 0x1d ∷ 0x0f ∷ 0x04 ∷ 0x04 ∷ 0x03 ∷ 0x02 ∷ 0x01 ∷ 0x86 ∷ 0x30
    ∷ 0x0f ∷ 0x06 ∷ 0x03 ∷ 0x55 ∷ 0x1d ∷ 0x13 ∷ 0x01 ∷ 0x01 ∷ 0xff ∷ 0x04 ∷ 0x05 ∷ 0x30 ∷ 0x03
    ∷ 0x01 ∷ 0x01 ∷ 0xff ∷ 0x30 ∷ 0x1d ∷ 0x06 ∷ 0x03 ∷ 0x55 ∷ 0x1d ∷ 0x0e ∷ 0x04 ∷ 0x16 ∷ 0x04
    ∷ 0x14 ∷ 0x72 ∷ 0x2d ∷ 0x3a ∷ 0x02 ∷ 0x31 ∷ 0x90 ∷ 0x43 ∷ 0xb9 ∷ 0x14 ∷ 0x05 ∷ 0x4e ∷ 0xe1
    ∷ 0xea ∷ 0xa7 ∷ 0xc7 ∷ 0x31 ∷ 0xd1 ∷ 0x23 ∷ 0x89 ∷ 0x34 ∷ 0x30 ∷ 0x10 ∷ 0x06 ∷ 0x09 ∷ 0x2b
    ∷ 0x06 ∷ 0x01 ∷ 0x04 ∷ 0x01 ∷ 0x82 ∷ 0x37 ∷ 0x15 ∷ 0x01 ∷ 0x04 ∷ 0x03 ∷ 0x02 ∷ 0x01 ∷ 0x00
    ∷ 0x30 ∷ 0x0d ∷ 0x06 ∷ 0x09 ∷ 0x2a ∷ 0x86 ∷ 0x48 ∷ 0x86 ∷ 0xf7 ∷ 0x0d ∷ 0x01 ∷ 0x01 ∷ 0x0b
    ∷ 0x05 ∷ 0x00 ∷ 0x03 ∷ 0x82 ∷ 0x02 ∷ 0x01 ∷ 0x00 ∷ 0x7f ∷ 0x72 ∷ 0xcf ∷ 0x0f ∷ 0xb7 ∷ 0xc5
    ∷ 0x15 ∷ 0xdb ∷ 0x9b ∷ 0xc0 ∷ 0x49 ∷ 0xca ∷ 0x26 ∷ 0x5b ∷ 0xfe ∷ 0x9e ∷ 0x13 ∷ 0xe6 ∷ 0xd3
    ∷ 0xf0 ∷ 0xd2 ∷ 0xdb ∷ 0x97 ∷ 0x5f ∷ 0xf2 ∷ 0x4b ∷ 0x3f ∷ 0x4d ∷ 0xb3 ∷ 0xae ∷ 0x19 ∷ 0xae
    ∷ 0xed ∷ 0xd7 ∷ 0x97 ∷ 0xa0 ∷ 0xac ∷ 0xef ∷ 0xa9 ∷ 0x3a ∷ 0xa3 ∷ 0xc2 ∷ 0x41 ∷ 0xb0 ∷ 0xe5
    ∷ 0xb8 ∷ 0x91 ∷ 0x9e ∷ 0x13 ∷ 0x81 ∷ 0x24 ∷ 0x03 ∷ 0xe6 ∷ 0x09 ∷ 0xfd ∷ 0x3f ∷ 0x57 ∷ 0x40
    ∷ 0x39 ∷ 0x21 ∷ 0x24 ∷ 0x56 ∷ 0xd1 ∷ 0x10 ∷ 0x2f ∷ 0x4b ∷ 0x40 ∷ 0xa9 ∷ 0x36 ∷ 0x86 ∷ 0x4b
    ∷ 0xb4 ∷ 0x53 ∷ 0x57 ∷ 0x9a ∷ 0xfb ∷ 0xf1 ∷ 0x7e ∷ 0x89 ∷ 0x8f ∷ 0x11 ∷ 0xfe ∷ 0x18 ∷ 0x6c
    ∷ 0x51 ∷ 0xaa ∷ 0xe8 ∷ 0xed ∷ 0x09 ∷ 0x95 ∷ 0xb5 ∷ 0xe5 ∷ 0x71 ∷ 0xc9 ∷ 0xa1 ∷ 0xe9 ∷ 0x87
    ∷ 0x75 ∷ 0xa6 ∷ 0x15 ∷ 0x7f ∷ 0xc9 ∷ 0x7e ∷ 0x37 ∷ 0x54 ∷ 0x5e ∷ 0x74 ∷ 0x93 ∷ 0xc5 ∷ 0xc3
    ∷ 0x67 ∷ 0xcc ∷ 0x0d ∷ 0x4f ∷ 0x6b ∷ 0xa8 ∷ 0x17 ∷ 0x0c ∷ 0x6d ∷ 0x08 ∷ 0x92 ∷ 0x7e ∷ 0x8b
    ∷ 0xdd ∷ 0x81 ∷ 0xaa ∷ 0x2d ∷ 0x70 ∷ 0x21 ∷ 0xc3 ∷ 0x3d ∷ 0x06 ∷ 0x14 ∷ 0xbb ∷ 0xbf ∷ 0x24
    ∷ 0x5e ∷ 0xa7 ∷ 0x84 ∷ 0xd7 ∷ 0x3f ∷ 0x0f ∷ 0x21 ∷ 0x22 ∷ 0xbd ∷ 0x4b ∷ 0x00 ∷ 0x06 ∷ 0xdb
    ∷ 0x97 ∷ 0x1c ∷ 0xd8 ∷ 0x5e ∷ 0xd4 ∷ 0xc5 ∷ 0x0b ∷ 0x5c ∷ 0x87 ∷ 0x6e ∷ 0x50 ∷ 0xa4 ∷ 0xe8
    ∷ 0xc3 ∷ 0x38 ∷ 0xa4 ∷ 0xfb ∷ 0xcb ∷ 0x2c ∷ 0xc5 ∷ 0x92 ∷ 0x66 ∷ 0x9b ∷ 0x85 ∷ 0x5e ∷ 0xcb
    ∷ 0x7a ∷ 0x6c ∷ 0x93 ∷ 0x7c ∷ 0x80 ∷ 0x29 ∷ 0x58 ∷ 0x5b ∷ 0x57 ∷ 0xb5 ∷ 0x40 ∷ 0x69 ∷ 0xba
    ∷ 0x08 ∷ 0x79 ∷ 0xa6 ∷ 0x64 ∷ 0x62 ∷ 0x15 ∷ 0x9d ∷ 0x87 ∷ 0x96 ∷ 0x45 ∷ 0xb5 ∷ 0x66 ∷ 0x23
    ∷ 0x20 ∷ 0x03 ∷ 0x8b ∷ 0x1c ∷ 0x73 ∷ 0xa0 ∷ 0xd3 ∷ 0xa2 ∷ 0x79 ∷ 0x33 ∷ 0xe0 ∷ 0x50 ∷ 0x59
    ∷ 0x86 ∷ 0xdb ∷ 0x2f ∷ 0xe5 ∷ 0x02 ∷ 0x25 ∷ 0xea ∷ 0x73 ∷ 0x2a ∷ 0x9f ∷ 0x00 ∷ 0x14 ∷ 0xc8
    ∷ 0x36 ∷ 0xc7 ∷ 0x92 ∷ 0x3b ∷ 0xe9 ∷ 0x4e ∷ 0x00 ∷ 0xec ∷ 0xd8 ∷ 0x56 ∷ 0x09 ∷ 0xb9 ∷ 0x33
    ∷ 0x49 ∷ 0x12 ∷ 0xd2 ∷ 0x54 ∷ 0x0b ∷ 0x01 ∷ 0xab ∷ 0xac ∷ 0x47 ∷ 0xb6 ∷ 0x91 ∷ 0x29 ∷ 0x7d
    ∷ 0x4c ∷ 0xb4 ∷ 0x75 ∷ 0x80 ∷ 0x52 ∷ 0x01 ∷ 0xe8 ∷ 0xca ∷ 0x82 ∷ 0xf6 ∷ 0x9f ∷ 0xcc ∷ 0xac
    ∷ 0x9c ∷ 0x8f ∷ 0x17 ∷ 0xea ∷ 0x2f ∷ 0x26 ∷ 0xb0 ∷ 0xab ∷ 0x72 ∷ 0xac ∷ 0x0b ∷ 0xfe ∷ 0x9e
    ∷ 0x51 ∷ 0x1e ∷ 0xc7 ∷ 0x43 ∷ 0x55 ∷ 0x67 ∷ 0x4f ∷ 0x51 ∷ 0xb3 ∷ 0x57 ∷ 0xd6 ∷ 0xb6 ∷ 0xec
    ∷ 0xee ∷ 0x52 ∷ 0xb7 ∷ 0x3a ∷ 0xe9 ∷ 0x4e ∷ 0xe1 ∷ 0xd7 ∷ 0x81 ∷ 0x88 ∷ 0xbc ∷ 0x4f ∷ 0x8e
    ∷ 0x75 ∷ 0xbb ∷ 0x4b ∷ 0xa8 ∷ 0xf0 ∷ 0x35 ∷ 0xaa ∷ 0x26 ∷ 0xd4 ∷ 0x67 ∷ 0x67 ∷ 0x49 ∷ 0xb2
    ∷ 0x70 ∷ 0x4c ∷ 0x3b ∷ 0x93 ∷ 0xdc ∷ 0x1d ∷ 0xdf ∷ 0x78 ∷ 0x90 ∷ 0x86 ∷ 0x72 ∷ 0xb2 ∷ 0x38
    ∷ 0xa4 ∷ 0xd1 ∷ 0xdc ∷ 0x92 ∷ 0x4d ∷ 0xc9 ∷ 0x58 ∷ 0xeb ∷ 0x2b ∷ 0x12 ∷ 0x5c ∷ 0xd4 ∷ 0x3b
    ∷ 0xae ∷ 0x8c ∷ 0x6b ∷ 0xb0 ∷ 0x83 ∷ 0xe5 ∷ 0x01 ∷ 0x3f ∷ 0xf8 ∷ 0x09 ∷ 0x32 ∷ 0xf6 ∷ 0x93
    ∷ 0x35 ∷ 0x34 ∷ 0x22 ∷ 0xaf ∷ 0xdd ∷ 0x37 ∷ 0x0d ∷ 0x77 ∷ 0x09 ∷ 0x80 ∷ 0x2b ∷ 0xcd ∷ 0x48
    ∷ 0x00 ∷ 0xf1 ∷ 0x8c ∷ 0x99 ∷ 0x19 ∷ 0x47 ∷ 0x05 ∷ 0x01 ∷ 0xe9 ∷ 0xd1 ∷ 0xbf ∷ 0xd1 ∷ 0x4e
    ∷ 0xd0 ∷ 0xe6 ∷ 0x28 ∷ 0x43 ∷ 0x37 ∷ 0x99 ∷ 0xa4 ∷ 0x0a ∷ 0x4a ∷ 0x08 ∷ 0xd9 ∷ 0x9a ∷ 0x71
    ∷ 0x73 ∷ 0xd2 ∷ 0xaa ∷ 0xcd ∷ 0x31 ∷ 0x13 ∷ 0x63 ∷ 0x76 ∷ 0xa1 ∷ 0x37 ∷ 0x6f ∷ 0x92 ∷ 0x38
    ∷ 0x1e ∷ 0x7d ∷ 0x12 ∷ 0x3c ∷ 0x66 ∷ 0x32 ∷ 0xe7 ∷ 0xcb ∷ 0x6d ∷ 0xe1 ∷ 0xfc ∷ 0x52 ∷ 0x89
    ∷ 0xdd ∷ 0xca ∷ 0xd6 ∷ 0x66 ∷ 0x05 ∷ 0x9a ∷ 0x96 ∷ 0x61 ∷ 0xbe ∷ 0xa2 ∷ 0x28 ∷ 0xc7 ∷ 0x1c
    ∷ 0xa3 ∷ 0xa7 ∷ 0x36 ∷ 0x50 ∷ 0x3c ∷ 0x3a ∷ 0xa4 ∷ 0xdf ∷ 0x4a ∷ 0x6e ∷ 0xe6 ∷ 0x87 ∷ 0x3b
    ∷ 0xce ∷ 0xeb ∷ 0xf0 ∷ 0xe0 ∷ 0x81 ∷ 0x37 ∷ 0x9d ∷ 0x13 ∷ 0x3c ∷ 0x52 ∷ 0x8e ∷ 0xbd ∷ 0xb9
    ∷ 0x1d ∷ 0x34 ∷ 0xc6 ∷ 0x1d ∷ 0xd5 ∷ 0x0a ∷ 0x6a ∷ 0x3d ∷ 0x98 ∷ 0x29 ∷ 0x70 ∷ 0x8c ∷ 0x89
    ∷ 0x2a ∷ 0xd1 ∷ 0xab ∷ 0x82 ∷ 0x10 ∷ 0x48 ∷ 0x1f ∷ 0xdc ∷ 0xf4 ∷ 0xef ∷ 0xa5 ∷ 0xc5 ∷ 0xbb
    ∷ 0x55 ∷ 0x1a ∷ 0x38 ∷ 0x63 ∷ 0x84 ∷ 0x4e ∷ 0xb7 ∷ 0x6c ∷ 0xad ∷ 0x95 ∷ 0x54 ∷ 0xec ∷ 0x65
    ∷ 0x22 ∷ 0x10 ∷ 0x49 ∷ 0x17 ∷ 0xb8 ∷ 0xc0 ∷ 0x1e ∷ 0xc7 ∷ 0x0f ∷ 0xac ∷ 0x54 ∷ 0x47 ∷ []
