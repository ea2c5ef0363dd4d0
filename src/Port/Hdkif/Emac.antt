-- ===== src/Port/Hdkif/Emac.antt =====
-- The reset of the EMAC.
use cannelloni_tms.Prelude.{ℕ, refl, List, [], ◌∷◌, ◌++◌, map}
use cannelloni_tms.Mmio.{Device, Cmd, ◌>>=◌, ◌>>◌, put}
use cannelloni_tms.Mmio.Runs.{Settles}
use cannelloni_tms.Mmio.Orders.{Orders, Orders-bind, Orders-put, Orders-wait, registers}
use cannelloni_tms.Port.Hdkif.{
  Reg, ctrl_softreset, softreset, maccontrol, txcontrol, rxcontrol, txhdp, rxhdp, txcp, rxcp,
  rxfreebuffer, txintmaskclear, rxintmaskclear, machash1, machash2, rxbufferoffset, in_reset,
  clear_channels, emac_init, max_header_desc,
}

-- The registers of one channel, and of `n` channels from `cnt` on.
abbrev channel_regs : ℕ → List Reg
channel_regs c = rxhdp c ∷ txhdp c ∷ rxcp c ∷ txcp c ∷ rxfreebuffer c ∷ []

-- What is written after the two resets: everything off, all eight channels cleared, and all
-- interrupts masked.
abbrev all_channels : List Reg
all_channels =
    channel_regs 0
    ++ channel_regs 1
    ++ channel_regs 2
    ++ channel_regs 3
    ++ channel_regs 4
    ++ channel_regs 5
    ++ channel_regs 6
    ++ channel_regs 7

abbrev pub cleared : List Reg
cleared =
    maccontrol
    ∷ rxcontrol
    ∷ txcontrol
    ∷ (all_channels
        ++ (txintmaskclear ∷ rxintmaskclear ∷ machash1 ∷ machash2 ∷ rxbufferoffset ∷ []))

module _ {R W : Type 0} (dev : Device R W) (at : Reg → R) (fuel : ℕ) where
  clear_channels-Orders : Orders (clear_channels dev at max_header_desc 0) (map at all_channels)
  unfolding clear_channels registers
  clear_channels-Orders = record { run = λ w. (_, _, _, refl, refl) }

  after_put :
      (r : R) (v : ℕ) {B : Type 0} {k : Unit {0} → Cmd R W B} {rs : List R}
      → ((u : Unit {0}) → Orders (k u) rs)
      → Orders (put dev r v >>= k) (r ∷ rs)
  after_put r v h = Orders-bind (Orders-put dev r v) h

  masks_cleared :
      Orders
        (put dev (at txintmaskclear) 0xFF
          >> (put dev (at rxintmaskclear) 0xFF
              >> (put dev (at machash1) 0
                  >> (put dev (at machash2) 0 >> put dev (at rxbufferoffset) 0))))
        (map at (txintmaskclear ∷ rxintmaskclear ∷ machash1 ∷ machash2 ∷ rxbufferoffset ∷ []))
  unfolding registers
  masks_cleared = record { run = λ w. (_, _, _, refl, refl) }

  -- If both resets end, `EMACInit` returns; it has reset the control module, then the EMAC, and only
  -- then cleared the other registers.
  pub emac_init-Orders :
      Settles dev fuel (at ctrl_softreset) in_reset
      → Settles dev fuel (at softreset) in_reset
      → Orders (emac_init dev at fuel) (at ctrl_softreset ∷ at softreset ∷ map at cleared)
  unfolding emac_init clear_channels registers
  emac_init-Orders ctrl_ends ends = after_put (at ctrl_softreset) 1 (λ _.
      Orders-bind (Orders-wait dev fuel (at ctrl_softreset) in_reset ctrl_ends) λ _.
        after_put (at softreset) 1 (λ _.
          Orders-bind (Orders-wait dev fuel (at softreset) in_reset ends) λ _.
            after_put (at maccontrol) 0 (λ _. after_put (at rxcontrol) 0 (λ _.
              after_put (at txcontrol) 0
                (λ _. Orders-bind clear_channels-Orders λ _. masks_cleared)))))
