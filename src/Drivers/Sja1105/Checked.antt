-- ===== src/Drivers/Sja1105/Checked.antt =====
-- The array `config` is a static configuration, and every number in it is a byte.
use cannelloni_tms.Prelude.{
  ℕ, zero, suc, ◌≡◌, refl, List, [], ◌∷◌, ◌++◌, All, Bool, true, ◌&&◌, ltb, arith,
}
use cannelloni_tms.Cannelloni.Frame.{IsByte}
use cannelloni_tms.Drivers.Sja1105.{config, write_command, static_config_addr}
use cannelloni_tms.Drivers.Sja1105.Format.{Block, static_config}

repeat_word : ℕ → List ℕ → List ℕ
repeat_word zero ws = []
repeat_word (suc n) ws = ws ++ repeat_word n ws

-- The tables: the policing table, the forwarding table for five ports and eight classes, the
-- configuration of the five ports, the forwarding and the general parameters, the interface modes.
pub tables : List Block
unfolding repeat_word
tables =
    record { id = 0x6; words = repeat_word 45 (0xfef7_0000 ∷ 0x03ff_ffff ∷ []) }
    ∷ record {
      id = 0x8;
      words =
          (0 ∷ 0xf7bc_0000 ∷ 0 ∷ 0xef7a_0000 ∷ 0 ∷ 0xdef6_0000 ∷ 0 ∷ 0xbdee_0000 ∷ 0 ∷ 0x7bde_0000
            ∷ [])
          ++ repeat_word 16 (0 ∷ []);
    }
    ∷ record {
      id = 0x9;
      words =
          repeat_word 4 (0x0000_000e ∷ 0 ∷ 0x07fc_0104 ∷ 0 ∷ 0 ∷ 0 ∷ 0 ∷ [])
          ++ (0x0000_000e ∷ 0 ∷ 0x07fc_0102 ∷ 0 ∷ 0 ∷ 0 ∷ 0 ∷ []);
    }
    ∷ record { id = 0xe; words = 0x0074_2000 ∷ 0 ∷ 0 ∷ [] }
    ∷ record {
      id = 0x11;
      words =
          0 ∷ 0x4204_0000 ∷ 0x0000_0445 ∷ 0 ∷ 0xff0f_f800 ∷ 0xffff_ffff ∷ 0xffff_ffff ∷ 0x00ff_ffff
          ∷ 0 ∷ 0 ∷ [];
    }
    ∷ record { id = 0x4e; words = 0x4648_0000 ∷ [] }
    ∷ []

all_bytes : List ℕ → Bool
all_bytes [] = true
all_bytes (b ∷ bs) = ltb b 256 && all_bytes bs

all_bytes_sound : (bs : List ℕ) → all_bytes bs ≡ true → All IsByte bs
unfolding all_bytes
all_bytes_sound [] h = tt
all_bytes_sound (b ∷ bs) h = (ground arith, all_bytes_sound bs (ground arith))

config_checked : all_bytes config ≡ true
unfolding all_bytes config
config_checked = refl

pub config-All : All IsByte config
config-All = all_bytes_sound config config_checked

-- The array is the command that writes it, and then the configuration with these tables.
pub config-static_config :
    config ≡ write_command static_config_addr ++ static_config 0x9e00_030e tables
unfolding config static_config tables
config-static_config = refl
