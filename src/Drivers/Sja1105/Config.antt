-- ===== src/Drivers/Sja1105/Config.antt =====
-- The array `config` of src/SJA1105.c, which holds the static configuration of the switch: one
-- definition for each of its blocks, with header, payload and checksums as they stand there.
use cannelloni_tms.Prelude.{ℕ, zero, suc, List, [], ◌∷◌, ◌++◌}

abbrev pub device_id : List ℕ
device_id = 0x9e ∷ 0x00 ∷ 0x03 ∷ 0x0e ∷ []

abbrev pub repeat : ℕ → List ℕ → List ℕ
repeat zero bs = []
repeat (suc n) bs = bs ++ repeat n bs

-- Block 0x6: 45 equal records of the L2 policing table
abbrev pub l2_policing : List ℕ
l2_policing =
    (0x06 ∷ 0x00 ∷ 0x00 ∷ 0x00 ∷ 0x00 ∷ 0x00 ∷ 0x00 ∷ 0x5a ∷ 0x4e ∷ 0xd2 ∷ 0xc5 ∷ 0x0f ∷ [])
    ++ (repeat 45 (0xfe ∷ 0xf7 ∷ 0x00 ∷ 0x00 ∷ 0x03 ∷ 0xff ∷ 0xff ∷ 0xff ∷ [])
        ++ (0xf0 ∷ 0x5a ∷ 0xd9 ∷ 0x4e ∷ []))

-- Block 0x8: the L2 forwarding table
abbrev pub l2_forwarding : List ℕ
l2_forwarding =
    0x08 ∷ 0x00 ∷ 0x00 ∷ 0x00 ∷ 0x00 ∷ 0x00 ∷ 0x00 ∷ 0x1a ∷ 0x6a ∷ 0xf6 ∷ 0x23 ∷ 0x53 ∷ 0x00 ∷ 0x00
    ∷ 0x00 ∷ 0x00 ∷ 0xf7 ∷ 0xbc ∷ 0x00 ∷ 0x00 ∷ 0x00 ∷ 0x00 ∷ 0x00 ∷ 0x00 ∷ 0xef ∷ 0x7a ∷ 0x00
    ∷ 0x00 ∷ 0x00 ∷ 0x00 ∷ 0x00 ∷ 0x00 ∷ 0xde ∷ 0xf6 ∷ 0x00 ∷ 0x00 ∷ 0x00 ∷ 0x00 ∷ 0x00 ∷ 0x00
    ∷ 0xbd ∷ 0xee ∷ 0x00 ∷ 0x00 ∷ 0x00 ∷ 0x00 ∷ 0x00 ∷ 0x00 ∷ 0x7b ∷ 0xde ∷ 0x00 ∷ 0x00 ∷ 0x00
    ∷ 0x00 ∷ 0x00 ∷ 0x00 ∷ 0x00 ∷ 0x00 ∷ 0x00 ∷ 0x00 ∷ 0x00 ∷ 0x00 ∷ 0x00 ∷ 0x00 ∷ 0x00 ∷ 0x00
    ∷ 0x00 ∷ 0x00 ∷ 0x00 ∷ 0x00 ∷ 0x00 ∷ 0x00 ∷ 0x00 ∷ 0x00 ∷ 0x00 ∷ 0x00 ∷ 0x00 ∷ 0x00 ∷ 0x00
    ∷ 0x00 ∷ 0x00 ∷ 0x00 ∷ 0x00 ∷ 0x00 ∷ 0x00 ∷ 0x00 ∷ 0x00 ∷ 0x00 ∷ 0x00 ∷ 0x00 ∷ 0x00 ∷ 0x00
    ∷ 0x00 ∷ 0x00 ∷ 0x00 ∷ 0x00 ∷ 0x00 ∷ 0x00 ∷ 0x00 ∷ 0x00 ∷ 0x00 ∷ 0x00 ∷ 0x00 ∷ 0x00 ∷ 0x00
    ∷ 0x00 ∷ 0x00 ∷ 0x00 ∷ 0x00 ∷ 0x00 ∷ 0x00 ∷ 0x00 ∷ 0x00 ∷ 0x00 ∷ 0x00 ∷ 0x00 ∷ 0xed ∷ 0x1c
    ∷ 0x07 ∷ 0x02 ∷ []

-- Block 0x9: the MAC configuration of the five ports
abbrev pub mac_config : List ℕ
mac_config =
    0x09 ∷ 0x00 ∷ 0x00 ∷ 0x00 ∷ 0x00 ∷ 0x00 ∷ 0x00 ∷ 0x23 ∷ 0xda ∷ 0xb5 ∷ 0xbd ∷ 0xc8 ∷ 0x00 ∷ 0x00
    ∷ 0x00 ∷ 0x0e ∷ 0x00 ∷ 0x00 ∷ 0x00 ∷ 0x00 ∷ 0x07 ∷ 0xfc ∷ 0x01 ∷ 0x04 ∷ 0x00 ∷ 0x00 ∷ 0x00
    ∷ 0x00 ∷ 0x00 ∷ 0x00 ∷ 0x00 ∷ 0x00 ∷ 0x00 ∷ 0x00 ∷ 0x00 ∷ 0x00 ∷ 0x00 ∷ 0x00 ∷ 0x00 ∷ 0x00
    ∷ 0x00 ∷ 0x00 ∷ 0x00 ∷ 0x0e ∷ 0x00 ∷ 0x00 ∷ 0x00 ∷ 0x00 ∷ 0x07 ∷ 0xfc ∷ 0x01 ∷ 0x04 ∷ 0x00
    ∷ 0x00 ∷ 0x00 ∷ 0x00 ∷ 0x00 ∷ 0x00 ∷ 0x00 ∷ 0x00 ∷ 0x00 ∷ 0x00 ∷ 0x00 ∷ 0x00 ∷ 0x00 ∷ 0x00
    ∷ 0x00 ∷ 0x00 ∷ 0x00 ∷ 0x00 ∷ 0x00 ∷ 0x0e ∷ 0x00 ∷ 0x00 ∷ 0x00 ∷ 0x00 ∷ 0x07 ∷ 0xfc ∷ 0x01
    ∷ 0x04 ∷ 0x00 ∷ 0x00 ∷ 0x00 ∷ 0x00 ∷ 0x00 ∷ 0x00 ∷ 0x00 ∷ 0x00 ∷ 0x00 ∷ 0x00 ∷ 0x00 ∷ 0x00
    ∷ 0x00 ∷ 0x00 ∷ 0x00 ∷ 0x00 ∷ 0x00 ∷ 0x00 ∷ 0x00 ∷ 0x0e ∷ 0x00 ∷ 0x00 ∷ 0x00 ∷ 0x00 ∷ 0x07
    ∷ 0xfc ∷ 0x01 ∷ 0x04 ∷ 0x00 ∷ 0x00 ∷ 0x00 ∷ 0x00 ∷ 0x00 ∷ 0x00 ∷ 0x00 ∷ 0x00 ∷ 0x00 ∷ 0x00
    ∷ 0x00 ∷ 0x00 ∷ 0x00 ∷ 0x00 ∷ 0x00 ∷ 0x00 ∷ 0x00 ∷ 0x00 ∷ 0x00 ∷ 0x0e ∷ 0x00 ∷ 0x00 ∷ 0x00
    ∷ 0x00 ∷ 0x07 ∷ 0xfc ∷ 0x01 ∷ 0x02 ∷ 0x00 ∷ 0x00 ∷ 0x00 ∷ 0x00 ∷ 0x00 ∷ 0x00 ∷ 0x00 ∷ 0x00
    ∷ 0x00 ∷ 0x00 ∷ 0x00 ∷ 0x00 ∷ 0x00 ∷ 0x00 ∷ 0x00 ∷ 0x00 ∷ 0xb2 ∷ 0x41 ∷ 0xdf ∷ 0x1f ∷ []

-- Block 0xe: the L2 forwarding parameters
abbrev pub l2_forwarding_params : List ℕ
l2_forwarding_params =
    0x0e ∷ 0x00 ∷ 0x00 ∷ 0x00 ∷ 0x00 ∷ 0x00 ∷ 0x00 ∷ 0x03 ∷ 0xc8 ∷ 0xa7 ∷ 0xce ∷ 0xe6 ∷ 0x00 ∷ 0x74
    ∷ 0x20 ∷ 0x00 ∷ 0x00 ∷ 0x00 ∷ 0x00 ∷ 0x00 ∷ 0x00 ∷ 0x00 ∷ 0x00 ∷ 0x00 ∷ 0x02 ∷ 0xeb ∷ 0x6c
    ∷ 0x5a ∷ []

-- Block 0x11: the general parameters
abbrev pub general_params : List ℕ
general_params =
    0x11 ∷ 0x00 ∷ 0x00 ∷ 0x00 ∷ 0x00 ∷ 0x00 ∷ 0x00 ∷ 0x0a ∷ 0x57 ∷ 0x1f ∷ 0x81 ∷ 0x3f ∷ 0x00 ∷ 0x00
    ∷ 0x00 ∷ 0x00 ∷ 0x42 ∷ 0x04 ∷ 0x00 ∷ 0x00 ∷ 0x00 ∷ 0x00 ∷ 0x04 ∷ 0x45 ∷ 0x00 ∷ 0x00 ∷ 0x00
    ∷ 0x00 ∷ 0xff ∷ 0x0f ∷ 0xf8 ∷ 0x00 ∷ 0xff ∷ 0xff ∷ 0xff ∷ 0xff ∷ 0xff ∷ 0xff ∷ 0xff ∷ 0xff
    ∷ 0x00 ∷ 0xff ∷ 0xff ∷ 0xff ∷ 0x00 ∷ 0x00 ∷ 0x00 ∷ 0x00 ∷ 0x00 ∷ 0x00 ∷ 0x00 ∷ 0x00 ∷ 0xa0
    ∷ 0xee ∷ 0x2a ∷ 0x0c ∷ []

-- Block 0x4e: the interface modes of the ports
abbrev pub xmii_mode : List ℕ
xmii_mode =
    0x4e ∷ 0x00 ∷ 0x00 ∷ 0x00 ∷ 0x00 ∷ 0x00 ∷ 0x00 ∷ 0x01 ∷ 0x3a ∷ 0x5d ∷ 0x5e ∷ 0x24 ∷ 0x46 ∷ 0x48
    ∷ 0x00 ∷ 0x00 ∷ 0x86 ∷ 0x5b ∷ 0xfe ∷ 0xb4 ∷ []

-- The last header, with no block behind it, and the checksum of everything before
abbrev pub total_crc : List ℕ
total_crc = 0x00 ∷ 0x00 ∷ 0x00 ∷ 0x00 ∷ 0x00 ∷ 0x00 ∷ 0x00 ∷ 0x00 ∷ 0xfc ∷ 0x27 ∷ 0x42 ∷ 0x56 ∷ []
