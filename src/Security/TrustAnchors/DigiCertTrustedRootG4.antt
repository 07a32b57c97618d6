-- ===== src/Security/TrustAnchors/DigiCertTrustedRootG4.antt =====
-- src/security/trust_anchors.cpp, kDigiCertTrustedRootG4Der.
use gcad.Base.{[], ◌∷◌}
use gcad.Base.Bytes.{Bytes}

unfoldable pub digi_cert_trusted_root_g4_der : Bytes
digi_cert_trusted_root_g4_der =
    0x30 ∷ 0x82 ∷ 0x05 ∷ 0x90 ∷ 0x30 ∷ 0x82 ∷ 0x03 ∷ 0x78 ∷ 0xa0 ∷ 0x03 ∷ 0x02 ∷ 0x01 ∷ 0x02 ∷ 0x02
    ∷ 0x10 ∷ 0x05 ∷ 0x9b ∷ 0x1b ∷ 0x57 ∷ 0x9e ∷ 0x8e ∷ 0x21 ∷ 0x32 ∷ 0xe2 ∷ 0x39 ∷ 0x07 ∷ 0xbd
    ∷ 0xa7 ∷ 0x77 ∷ 0x75 ∷ 0x5c ∷ 0x30 ∷ 0x0d ∷ 0x06 ∷ 0x09 ∷ 0x2a ∷ 0x86 ∷ 0x48 ∷ 0x86 ∷ 0xf7
    ∷ 0x0d ∷ 0x01 ∷ 0x01 ∷ 0x0c ∷ 0x05 ∷ 0x00 ∷ 0x30 ∷ 0x62 ∷ 0x31 ∷ 0x0b ∷ 0x30 ∷ 0x09 ∷ 0x06
    ∷ 0x03 ∷ 0x55 ∷ 0x04 ∷ 0x06 ∷ 0x13 ∷ 0x02 ∷ 0x55 ∷ 0x53 ∷ 0x31 ∷ 0x15 ∷ 0x30 ∷ 0x13 ∷ 0x06
    ∷ 0x03 ∷ 0x55 ∷ 0x04 ∷ 0x0a ∷ 0x13 ∷ 0x0c ∷ 0x44 ∷ 0x69 ∷ 0x67 ∷ 0x69 ∷ 0x43 ∷ 0x65 ∷ 0x72
    ∷ 0x74 ∷ 0x20 ∷ 0x49 ∷ 0x6e ∷ 0x63 ∷ 0x31 ∷ 0x19 ∷ 0x30 ∷ 0x17 ∷ 0x06 ∷ 0x03 ∷ 0x55 ∷ 0x04
    ∷ 0x0b ∷ 0x13 ∷ 0x10 ∷ 0x77 ∷ 0x77 ∷ 0x77 ∷ 0x2e ∷ 0x64 ∷ 0x69 ∷ 0x67 ∷ 0x69 ∷ 0x63 ∷ 0x65
    ∷ 0x72 ∷ 0x74 ∷ 0x2e ∷ 0x63 ∷ 0x6f ∷ 0x6d ∷ 0x31 ∷ 0x21 ∷ 0x30 ∷ 0x1f ∷ 0x06 ∷ 0x03 ∷ 0x55
    ∷ 0x04 ∷ 0x03 ∷ 0x13 ∷ 0x18 ∷ 0x44 ∷ 0x69 ∷ 0x67 ∷ 0x69 ∷ 0x43 ∷ 0x65 ∷ 0x72 ∷ 0x74 ∷ 0x20
    ∷ 0x54 ∷ 0x72 ∷ 0x75 ∷ 0x73 ∷ 0x74 ∷ 0x65 ∷ 0x64 ∷ 0x20 ∷ 0x52 ∷ 0x6f ∷ 0x6f ∷ 0x74 ∷ 0x20
    ∷ 0x47 ∷ 0x34 ∷ 0x30 ∷ 0x1e ∷ 0x17 ∷ 0x0d ∷ 0x31 ∷ 0x33 ∷ 0x30 ∷ 0x38 ∷ 0x30 ∷ 0x31 ∷ 0x31
    ∷ 0x32 ∷ 0x30 ∷ 0x30 ∷ 0x30 ∷ 0x30 ∷ 0x5a ∷ 0x17 ∷ 0x0d ∷ 0x33 ∷ 0x38 ∷ 0x30 ∷ 0x31 ∷ 0x31
    ∷ 0x35 ∷ 0x31 ∷ 0x32 ∷ 0x30 ∷ 0x30 ∷ 0x30 ∷ 0x30 ∷ 0x5a ∷ 0x30 ∷ 0x62 ∷ 0x31 ∷ 0x0b ∷ 0x30
    ∷ 0x09 ∷ 0x06 ∷ 0x03 ∷ 0x55 ∷ 0x04 ∷ 0x06 ∷ 0x13 ∷ 0x02 ∷ 0x55 ∷ 0x53 ∷ 0x31 ∷ 0x15 ∷ 0x30
    ∷ 0x13 ∷ 0x06 ∷ 0x03 ∷ 0x55 ∷ 0x04 ∷ 0x0a ∷ 0x13 ∷ 0x0c ∷ 0x44 ∷ 0x69 ∷ 0x67 ∷ 0x69 ∷ 0x43
    ∷ 0x65 ∷ 0x72 ∷ 0x74 ∷ 0x20 ∷ 0x49 ∷ 0x6e ∷ 0x63 ∷ 0x31 ∷ 0x19 ∷ 0x30 ∷ 0x17 ∷ 0x06 ∷ 0x03
    ∷ 0x55 ∷ 0x04 ∷ 0x0b ∷ 0x13 ∷ 0x10 ∷ 0x77 ∷ 0x77 ∷ 0x77 ∷ 0x2e ∷ 0x64 ∷ 0x69 ∷ 0x67 ∷ 0x69
    ∷ 0x63 ∷ 0x65 ∷ 0x72 ∷ 0x74 ∷ 0x2e ∷ 0x63 ∷ 0x6f ∷ 0x6d ∷ 0x31 ∷ 0x21 ∷ 0x30 ∷ 0x1f ∷ 0x06
    ∷ 0x03 ∷ 0x55 ∷ 0x04 ∷ 0x03 ∷ 0x13 ∷ 0x18 ∷ 0x44 ∷ 0x69 ∷ 0x67 ∷ 0x69 ∷ 0x43 ∷ 0x65 ∷ 0x72
    ∷ 0x74 ∷ 0x20 ∷ 0x54 ∷ 0x72 ∷ 0x75 ∷ 0x73 ∷ 0x74 ∷ 0x65 ∷ 0x64 ∷ 0x20 ∷ 0x52 ∷ 0x6f ∷ 0x6f
    ∷ 0x74 ∷ 0x20 ∷ 0x47 ∷ 0x34 ∷ 0x30 ∷ 0x82 ∷ 0x02 ∷ 0x22 ∷ 0x30 ∷ 0x0d ∷ 0x06 ∷ 0x09 ∷ 0x2a
    ∷ 0x86 ∷ 0x48 ∷ 0x86 ∷ 0xf7 ∷ 0x0d ∷ 0x01 ∷ 0x01 ∷ 0x01 ∷ 0x05 ∷ 0x00 ∷ 0x03 ∷ 0x82 ∷ 0x02
    ∷ 0x0f ∷ 0x00 ∷ 0x30 ∷ 0x82 ∷ 0x02 ∷ 0x0a ∷ 0x02 ∷ 0x82 ∷ 0x02 ∷ 0x01 ∷ 0x00 ∷ 0xbf ∷ 0xe6
    ∷ 0x90 ∷ 0x73 ∷ 0x68 ∷ 0xde ∷ 0xbb ∷ 0xe4 ∷ 0x5d ∷ 0x4a ∷ 0x3c ∷ 0x30 ∷ 0x22 ∷ 0x30 ∷ 0x69
    ∷ 0x33 ∷ 0xec ∷ 0xc2 ∷ 0xa7 ∷ 0x25 ∷ 0x2e ∷ 0xc9 ∷ 0x21 ∷ 0x3d ∷ 0xf2 ∷ 0x8a ∷ 0xd8 ∷ 0x59
    ∷ 0xc2 ∷ 0xe1 ∷ 0x29 ∷ 0xa7 ∷ 0x3d ∷ 0x58 ∷ 0xab ∷ 0x76 ∷ 0x9a ∷ 0xcd ∷ 0xae ∷ 0x7b ∷ 0x1b
    ∷ 0x84 ∷ 0x0d ∷ 0xc4 ∷ 0x30 ∷ 0x1f ∷ 0xf3 ∷ 0x1b ∷ 0xa4 ∷ 0x38 ∷ 0x16 ∷ 0xeb ∷ 0x56 ∷ 0xc6
    ∷ 0x97 ∷ 0x6d ∷ 0x1d ∷ 0xab ∷ 0xb2 ∷ 0x79 ∷ 0xf2 ∷ 0xca ∷ 0x11 ∷ 0xd2 ∷ 0xe4 ∷ 0x5f ∷ 0xd6
    ∷ 0x05 ∷ 0x3c ∷ 0x52 ∷ 0x0f ∷ 0x52 ∷ 0x1f ∷ 0xc6 ∷ 0x9e ∷ 0x15 ∷ 0xa5 ∷ 0x7e ∷ 0xbe ∷ 0x9f
    ∷ 0xa9 ∷ 0x57 ∷ 0x16 ∷ 0x59 ∷ 0x55 ∷ 0x72 ∷ 0xaf ∷ 0x68 ∷ 0x93 ∷ 0x70 ∷ 0xc2 ∷ 0xb2 ∷ 0xba
    ∷ 0x75 ∷ 0x99 ∷ 0x6a ∷ 0x73 ∷ 0x32 ∷ 0x94 ∷ 0xd1 ∷ 0x10 ∷ 0x44 ∷ 0x10 ∷ 0x2e ∷ 0xdf ∷ 0x82
    ∷ 0xf3 ∷ 0x07 ∷ 0x84 ∷ 0xe6 ∷ 0x74 ∷ 0x3b ∷ 0x6d ∷ 0x71 ∷ 0xe2 ∷ 0x2d ∷ 0x0c ∷ 0x1b ∷ 0xee
    ∷ 0x20 ∷ 0xd5 ∷ 0xc9 ∷ 0x20 ∷ 0x1d ∷ 0x63 ∷ 0x29 ∷ 0x2d ∷ 0xce ∷ 0xec ∷ 0x5e ∷ 0x4e ∷ 0xc8
    ∷ 0x93 ∷ 0xf8 ∷ 0x21 ∷ 0x61 ∷ 0x9b ∷ 0x34 ∷ 0xeb ∷ 0x05 ∷ 0xc6 ∷ 0x5e ∷ 0xec ∷ 0x5b ∷ 0x1a
    ∷ 0xbc ∷ 0xeb ∷ 0xc9 ∷ 0xcf ∷ 0xcd ∷ 0xac ∷ 0x34 ∷ 0x40 ∷ 0x5f ∷ 0xb1 ∷ 0x7a ∷ 0x66 ∷ 0xee
    ∷ 0x77 ∷ 0xc8 ∷ 0x48 ∷ 0xa8 ∷ 0x66 ∷ 0x57 ∷ 0x57 ∷ 0x9f ∷ 0x54 ∷ 0x58 ∷ 0x8e ∷ 0x0c ∷ 0x2b
    ∷ 0xb7 ∷ 0x4f ∷ 0xa7 ∷ 0x30 ∷ 0xd9 ∷ 0x56 ∷ 0xee ∷ 0xca ∷ 0x7b ∷ 0x5d ∷ 0xe3 ∷ 0xad ∷ 0xc9
    ∷ 0x4f ∷ 0x5e ∷ 0xe5 ∷ 0x35 ∷ 0xe7 ∷ 0x31 ∷ 0xcb ∷ 0xda ∷ 0x93 ∷ 0x5e ∷ 0xdc ∷ 0x8e ∷ 0x8f
    ∷ 0x80 ∷ 0xda ∷ 0xb6 ∷ 0x91 ∷ 0x98 ∷ 0x40 ∷ 0x90 ∷ 0x79 ∷ 0xc3 ∷ 0x78 ∷ 0xc7 ∷ 0xb6 ∷ 0xb1
    ∷ 0xc4 ∷ 0xb5 ∷ 0x6a ∷ 0x18 ∷ 0x38 ∷ 0x03 ∷ 0x10 ∷ 0x8d ∷ 0xd8 ∷ 0xd4 ∷ 0x37 ∷ 0xa4 ∷ 0x2e
    ∷ 0x05 ∷ 0x7d ∷ 0x88 ∷ 0xf5 ∷ 0x82 ∷ 0x3e ∷ 0x10 ∷ 0x91 ∷ 0x70 ∷ 0xab ∷ 0x55 ∷ 0x82 ∷ 0x41
    ∷ 0x32 ∷ 0xd7 ∷ 0xdb ∷ 0x04 ∷ 0x73 ∷ 0x2a ∷ 0x6e ∷ 0x91 ∷ 0x01 ∷ 0x7c ∷ 0x21 ∷ 0x4c ∷ 0xd4
    ∷ 0xbc ∷ 0xae ∷ 0x1b ∷ 0x03 ∷ 0x75 ∷ 0x5d ∷ 0x78 ∷ 0x66 ∷ 0xd9 ∷ 0x3a ∷ 0x31 ∷ 0x44 ∷ 0x9a
    ∷ 0x33 ∷ 0x40 ∷ 0xbf ∷ 0x08 ∷ 0xd7 ∷ 0x5a ∷ 0x49 ∷ 0xa4 ∷ 0xc2 ∷ 0xe6 ∷ 0xa9 ∷ 0xa0 ∷ 0x67
    ∷ 0xdd ∷ 0xa4 ∷ 0x27 ∷ 0xbc ∷ 0xa1 ∷ 0x4f ∷ 0x39 ∷ 0xb5 ∷ 0x11 ∷ 0x58 ∷ 0x17 ∷ 0xf7 ∷ 0x24
    ∷ 0x5c ∷ 0x46 ∷ 0x8f ∷ 0x64 ∷ 0xf7 ∷ 0xc1 ∷ 0x69 ∷ 0x88 ∷ 0x76 ∷ 0x98 ∷ 0x76 ∷ 0x3d ∷ 0x59
    ∷ 0x5d ∷ 0x42 ∷ 0x76 ∷ 0x87 ∷ 0x89 ∷ 0x97 ∷ 0x69 ∷ 0x7a ∷ 0x48 ∷ 0xf0 ∷ 0xe0 ∷ 0xa2 ∷ 0x12
    ∷ 0x1b ∷ 0x66 ∷ 0x9a ∷ 0x74 ∷ 0xca ∷ 0xde ∷ 0x4b ∷ 0x1e ∷ 0xe7 ∷ 0x0e ∷ 0x63 ∷ 0xae ∷ 0xe6
    ∷ 0xd4 ∷ 0xef ∷ 0x92 ∷ 0x92 ∷ 0x3a ∷ 0x9e ∷ 0x3d ∷ 0xdc ∷ 0x00 ∷ 0xe4 ∷ 0x45 ∷ 0x25 ∷ 0x89
    ∷ 0xb6 ∷ 0x9a ∷ 0x44 ∷ 0x19 ∷ 0x2b ∷ 0x7e ∷ 0xc0 ∷ 0x94 ∷ 0xb4 ∷ 0xd2 ∷ 0x61 ∷ 0x6d ∷ 0xeb
    ∷ 0x33 ∷ 0xd9 ∷ 0xc5 ∷ 0xdf ∷ 0x4b ∷ 0x04 ∷ 0x00 ∷ 0xcc ∷ 0x7d ∷ 0x1c ∷ 0x95 ∷ 0xc3 ∷ 0x8f
    ∷ 0xf7 ∷ 0x21 ∷ 0xb2 ∷ 0xb2 ∷ 0x11 ∷ 0xb7 ∷ 0xbb ∷ 0x7f ∷ 0xf2 ∷ 0xd5 ∷ 0x8c ∷ 0x70 ∷ 0x2c
    ∷ 0x41 ∷ 0x60 ∷ 0xaa ∷ 0xb1 ∷ 0x63 ∷ 0x18 ∷ 0x44 ∷ 0x95 ∷ 0x1a ∷ 0x76 ∷ 0x62 ∷ 0x7e ∷ 0xf6
    ∷ 0x80 ∷ 0xb0 ∷ 0xfb ∷ 0xe8 ∷ 0x64 ∷ 0xa6 ∷ 0x33 ∷ 0xd1 ∷ 0x89 ∷ 0x07 ∷ 0xe1 ∷ 0xbd ∷ 0xb7
    ∷ 0xe6 ∷ 0x43 ∷ 0xa4 ∷ 0x18 ∷ 0xb8 ∷ 0xa6 ∷ 0x77 ∷ 0x01 ∷ 0xe1 ∷ 0x0f ∷ 0x94 ∷ 0x0c ∷ 0x21
    ∷ 0x1d ∷ 0xb2 ∷ 0x54 ∷ 0x29 ∷ 0x25 ∷ 0x89 ∷ 0x6c ∷ 0xe5 ∷ 0x0e ∷ 0x52 ∷ 0x51 ∷ 0x47 ∷ 0x74
    ∷ 0xbe ∷ 0x26 ∷ 0xac ∷ 0xb6 ∷ 0x41 ∷ 0x75 ∷ 0xde ∷ 0x7a ∷ 0xac ∷ 0x5f ∷ 0x8d ∷ 0x3f ∷ 0xc9
    ∷ 0xbc ∷ 0xd3 ∷ 0x41 ∷ 0x11 ∷ 0x12 ∷ 0x5b ∷ 0xe5 ∷ 0x10 ∷ 0x50 ∷ 0xeb ∷ 0x31 ∷ 0xc5 ∷ 0xca
    ∷ 0x72 ∷ 0x16 ∷ 0x22 ∷ 0x09 ∷ 0xdf ∷ 0x7c ∷ 0x4c ∷ 0x75 ∷ 0x3f ∷ 0x63 ∷ 0xec ∷ 0x21 ∷ 0x5f
    ∷ 0xc4 ∷ 0x20 ∷ 0x51 ∷ 0x6b ∷ 0x6f ∷ 0xb1 ∷ 0xab ∷ 0x86 ∷ 0x8b ∷ 0x4f ∷ 0xc2 ∷ 0xd6 ∷ 0x45
    ∷ 0x5f ∷ 0x9d ∷ 0x20 ∷ 0xfc ∷ 0xa1 ∷ 0x1e ∷ 0xc5 ∷ 0xc0 ∷ 0x8f ∷ 0xa2 ∷ 0xb1 ∷ 0x7e ∷ 0x0a
    ∷ 0x26 ∷ 0x99 ∷ 0xf5 ∷ 0xe4 ∷ 0x69 ∷ 0x2f ∷ 0x98 ∷ 0x1d ∷ 0x2d ∷ 0xf5 ∷ 0xd9 ∷ 0xa9 ∷ 0xb2
    ∷ 0x1d ∷ 0xe5 ∷ 0x1b ∷ 0x02 ∷ 0x03 ∷ 0x01 ∷ 0x00 ∷ 0x01 ∷ 0xa3 ∷ 0x42 ∷ 0x30 ∷ 0x40 ∷ 0x30
    ∷ 0x0f ∷ 0x06 ∷ 0x03 ∷ 0x55 ∷ 0x1d ∷ 0x13 ∷ 0x01 ∷ 0x01 ∷ 0xff ∷ 0x04 ∷ 0x05 ∷ 0x30 ∷ 0x03
    ∷ 0x01 ∷ 0x01 ∷ 0xff ∷ 0x30 ∷ 0x0e ∷ 0x06 ∷ 0x03 ∷ 0x55 ∷ 0x1d ∷ 0x0f ∷ 0x01 ∷ 0x01 ∷ 0xff
    ∷ 0x04 ∷ 0x04 ∷ 0x03 ∷ 0x02 ∷ 0x01 ∷ 0x86 ∷ 0x30 ∷ 0x1d ∷ 0x06 ∷ 0x03 ∷ 0x55 ∷ 0x1d ∷ 0x0e
    ∷ 0x04 ∷ 0x16 ∷ 0x04 ∷ 0x14 ∷ 0xec ∷ 0xd7 ∷ 0xe3 ∷ 0x82 ∷ 0xd2 ∷ 0x71 ∷ 0x5d ∷ 0x64 ∷ 0x4c
    ∷ 0xdf ∷ 0x2e ∷ 0x67 ∷ 0x3f ∷ 0xe7 ∷ 0xba ∷ 0x98 ∷ 0xae ∷ 0x1c ∷ 0x0f ∷ 0x4f ∷ 0x30 ∷ 0x0d
    ∷ 0x06 ∷ 0x09 ∷ 0x2a ∷ 0x86 ∷ 0x48 ∷ 0x86 ∷ 0xf7 ∷ 0x0d ∷ 0x01 ∷ 0x01 ∷ 0x0c ∷ 0x05 ∷ 0x00
    ∷ 0x03 ∷ 0x82 ∷ 0x02 ∷ 0x01 ∷ 0x00 ∷ 0xbb ∷ 0x61 ∷ 0xd9 ∷ 0x7d ∷ 0xa9 ∷ 0x6c ∷ 0xbe ∷ 0x17
    ∷ 0xc4 ∷ 0x91 ∷ 0x1b ∷ 0xc3 ∷ 0xa1 ∷ 0xa2 ∷ 0x00 ∷ 0x8d ∷ 0xe3 ∷ 0x64 ∷ 0x68 ∷ 0x0f ∷ 0x56
    ∷ 0xcf ∷ 0x77 ∷ 0xae ∷ 0x70 ∷ 0xf9 ∷ 0xfd ∷ 0x9a ∷ 0x4a ∷ 0x99 ∷ 0xb9 ∷ 0xc9 ∷ 0x78 ∷ 0x5c
    ∷ 0x0c ∷ 0x0c ∷ 0x5f ∷ 0xe4 ∷ 0xe6 ∷ 0x14 ∷ 0x29 ∷ 0x56 ∷ 0x0b ∷ 0x36 ∷ 0x49 ∷ 0x5d ∷ 0x44
    ∷ 0x63 ∷ 0xe0 ∷ 0xad ∷ 0x9c ∷ 0x96 ∷ 0x18 ∷ 0x66 ∷ 0x1b ∷ 0x23 ∷ 0x0d ∷ 0x3d ∷ 0x79 ∷ 0xe9
    ∷ 0x6d ∷ 0x6b ∷ 0xd6 ∷ 0x54 ∷ 0xf8 ∷ 0xd2 ∷ 0x3c ∷ 0xc1 ∷ 0x43 ∷ 0x40 ∷ 0xae ∷ 0x1d ∷ 0x50
    ∷ 0xf5 ∷ 0x52 ∷ 0xfc ∷ 0x90 ∷ 0x3b ∷ 0xbb ∷ 0x98 ∷ 0x99 ∷ 0x69 ∷ 0x6b ∷ 0xc7 ∷ 0xc1 ∷ 0xa7
    ∷ 0xa8 ∷ 0x68 ∷ 0xa4 ∷ 0x27 ∷ 0xdc ∷ 0x9d ∷ 0xf9 ∷ 0x27 ∷ 0xae ∷ 0x30 ∷ 0x85 ∷ 0xb9 ∷ 0xf6
    ∷ 0x67 ∷ 0x4d ∷ 0x3a ∷ 0x3e ∷ 0x8f ∷ 0x59 ∷ 0x39 ∷ 0x22 ∷ 0x53 ∷ 0x44 ∷ 0xeb ∷ 0xc8 ∷ 0x5d
    ∷ 0x03 ∷ 0xca ∷ 0xed ∷ 0x50 ∷ 0x7a ∷ 0x7d ∷ 0x62 ∷ 0x21 ∷ 0x0a ∷ 0x80 ∷ 0xc8 ∷ 0x73 ∷ 0x66
    ∷ 0xd1 ∷ 0xa0 ∷ 0x05 ∷ 0x60 ∷ 0x5f ∷ 0xe8 ∷ 0xa5 ∷ 0xb4 ∷ 0xa7 ∷ 0xaf ∷ 0xa8 ∷ 0xf7 ∷ 0x6d
    ∷ 0x35 ∷ 0x9c ∷ 0x7c ∷ 0x5a ∷ 0x8a ∷ 0xd6 ∷ 0xa2 ∷ 0x38 ∷ 0x99 ∷ 0xf3 ∷ 0x78 ∷ 0x8b ∷ 0xf4
    ∷ 0x4d ∷ 0xd2 ∷ 0x20 ∷ 0x0b ∷ 0xde ∷ 0x04 ∷ 0xee ∷ 0x8c ∷ 0x9b ∷ 0x47 ∷ 0x81 ∷ 0x72 ∷ 0x0d
    ∷ 0xc0 ∷ 0x14 ∷ 0x32 ∷ 0xef ∷ 0x30 ∷ 0x59 ∷ 0x2e ∷ 0xae ∷ 0xe0 ∷ 0x71 ∷ 0xf2 ∷ 0x56 ∷ 0xe4
    ∷ 0x6a ∷ 0x97 ∷ 0x6f ∷ 0x92 ∷ 0x50 ∷ 0x6d ∷ 0x96 ∷ 0x8d ∷ 0x68 ∷ 0x7a ∷ 0x9a ∷ 0xb2 ∷ 0x36
    ∷ 0x14 ∷ 0x7a ∷ 0x06 ∷ 0xf2 ∷ 0x24 ∷ 0xb9 ∷ 0x09 ∷ 0x11 ∷ 0x50 ∷ 0xd7 ∷ 0x08 ∷ 0xb1 ∷ 0xb8
    ∷ 0x89 ∷ 0x7a ∷ 0x84 ∷ 0x23 ∷ 0x61 ∷ 0x42 ∷ 0x29 ∷ 0xe5 ∷ 0xa3 ∷ 0xcd ∷ 0xa2 ∷ 0x20 ∷ 0x41
    ∷ 0xd7 ∷ 0xd1 ∷ 0x9c ∷ 0x64 ∷ 0xd9 ∷ 0xea ∷ 0x26 ∷ 0xa1 ∷ 0x8b ∷ 0x14 ∷ 0xd7 ∷ 0x4c ∷ 0x19
    ∷ 0xb2 ∷ 0x50 ∷ 0x41 ∷ 0x71 ∷ 0x3d ∷ 0x3f ∷ 0x4d ∷ 0x70 ∷ 0x23 ∷ 0x86 ∷ 0x0c ∷ 0x4a ∷ 0xdc
    ∷ 0x81 ∷ 0xd2 ∷ 0xcc ∷ 0x32 ∷ 0x94 ∷ 0x84 ∷ 0x0d ∷ 0x08 ∷ 0x09 ∷ 0x97 ∷ 0x1c ∷ 0x4f ∷ 0xc0
    ∷ 0xee ∷ 0x6b ∷ 0x20 ∷ 0x74 ∷ 0x30 ∷ 0xd2 ∷ 0xe0 ∷ 0x39 ∷ 0x34 ∷ 0x10 ∷ 0x85 ∷ 0x21 ∷ 0x15
    ∷ 0x01 ∷ 0x08 ∷ 0xe8 ∷ 0x55 ∷ 0x32 ∷ 0xde ∷ 0x71 ∷ 0x49 ∷ 0xd9 ∷ 0x28 ∷ 0x17 ∷ 0x50 ∷ 0x4d
    ∷ 0xe6 ∷ 0xbe ∷ 0x4d ∷ 0xd1 ∷ 0x75 ∷ 0xac ∷ 0xd0 ∷ 0xca ∷ 0xfb ∷ 0x41 ∷ 0xb8 ∷ 0x43 ∷ 0xa5
    ∷ 0xaa ∷ 0xd3 ∷ 0xc3 ∷ 0x05 ∷ 0x44 ∷ 0x4f ∷ 0x2c ∷ 0x36 ∷ 0x9b ∷ 0xe2 ∷ 0xfa ∷ 0xe2 ∷ 0x45
    ∷ 0xb8 ∷ 0x23 ∷ 0x53 ∷ 0x6c ∷ 0x06 ∷ 0x6f ∷ 0x67 ∷ 0x55 ∷ 0x7f ∷ 0x46 ∷ 0xb5 ∷ 0x4c ∷ 0x3f
    ∷ 0x6e ∷ 0x28 ∷ 0x5a ∷ 0x79 ∷ 0x26 ∷ 0xd2 ∷ 0xa4 ∷ 0xa8 ∷ 0x62 ∷ 0x97 ∷ 0xd2 ∷ 0x1e ∷ 0xe2
    ∷ 0xed ∷ 0x4a ∷ 0x8b ∷ 0xbc ∷ 0x1b ∷ 0xfd ∷ 0x47 ∷ 0x4a ∷ 0x0d ∷ 0xdf ∷ 0x67 ∷ 0x66 ∷ 0x7e
    ∷ 0xb2 ∷ 0x5b ∷ 0x41 ∷ 0xd0 ∷ 0x3b ∷ 0xe4 ∷ 0xf4 ∷ 0x3b ∷ 0xf4 ∷ 0x04 ∷ 0x63 ∷ 0xe9 ∷ 0xef
    ∷ 0xc2 ∷ 0x54 ∷ 0x00 ∷ 0x51 ∷ 0xa0 ∷ 0x8a ∷ 0x2a ∷ 0xc9 ∷ 0xce ∷ 0x78 ∷ 0xcc ∷ 0xd5 ∷ 0xea
    ∷ 0x87 ∷ 0x04 ∷ 0x18 ∷ 0xb3 ∷ 0xce ∷ 0xaf ∷ 0x49 ∷ 0x88 ∷ 0xaf ∷ 0xf3 ∷ 0x92 ∷ 0x99 ∷ 0xb6
    ∷ 0xb3 ∷ 0xe6 ∷ 0x61 ∷ 0x0f ∷ 0xd2 ∷ 0x85 ∷ 0x00 ∷ 0xe7 ∷ 0x50 ∷ 0x1a ∷ 0xe4 ∷ 0x1b ∷ 0x95
    ∷ 0x9d ∷ 0x19 ∷ 0xa1 ∷ 0xb9 ∷ 0x9c ∷ 0xb1 ∷ 0x9b ∷ 0xb1 ∷ 0x00 ∷ 0x1e ∷ 0xef ∷ 0xd0 ∷ 0x0f
    ∷ 0x4f ∷ 0x42 ∷ 0x6c ∷ 0xc9 ∷ 0x0a ∷ 0xbc ∷ 0xee ∷ 0x43 ∷ 0xfa ∷ 0x3a ∷ 0x71 ∷ 0xa5 ∷ 0xc8
    ∷ 0x4d ∷ 0x26 ∷ 0xa5 ∷ 0x35 ∷ 0xfd ∷ 0x89 ∷ 0x5d ∷ 0xbc ∷ 0x85 ∷ 0x62 ∷ 0x1d ∷ 0x32 ∷ 0xd2
    ∷ 0xa0 ∷ 0x2b ∷ 0x54 ∷ 0xed ∷ 0x9a ∷ 0x57 ∷ 0xc1 ∷ 0xdb ∷ 0xfa ∷ 0x10 ∷ 0xcf ∷ 0x19 ∷ 0xb7
    ∷ 0x8b ∷ 0x4a ∷ 0x1b ∷ 0x8f ∷ 0x01 ∷ 0xb6 ∷ 0x27 ∷ 0x95 ∷ 0x53 ∷ 0xe8 ∷ 0xb6 ∷ 0x89 ∷ 0x6d
    ∷ 0x5b ∷ 0xbc ∷ 0x68 ∷ 0xd4 ∷ 0x23 ∷ 0xe8 ∷ 0x8b ∷ 0x51 ∷ 0xa2 ∷ 0x56 ∷ 0xf9 ∷ 0xf0 ∷ 0xa6
    ∷ 0x80 ∷ 0xa0 ∷ 0xd6 ∷ 0x1e ∷ 0xb3 ∷ 0xbc ∷ 0x0f ∷ 0x0f ∷ 0x53 ∷ 0x75 ∷ 0x29 ∷ 0xaa ∷ 0xea
    ∷ 0x13 ∷ 0x77 ∷ 0xe4 ∷ 0xde ∷ 0x8c ∷ 0x81 ∷ 0x21 ∷ 0xad ∷ 0x07 ∷ 0x10 ∷ 0x47 ∷ 0x11 ∷ 0xad
    ∷ 0x87 ∷ 0x3d ∷ 0x07 ∷ 0xd1 ∷ 0x75 ∷ 0xbc ∷ 0xcf ∷ 0xf3 ∷ 0x66 ∷ 0x7e ∷ []
