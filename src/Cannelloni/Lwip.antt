-- ===== src/Cannelloni/Lwip.antt =====
-- What src/cannelloni.c uses of the lwIP stack: the operations, and what they are documented to do.
use cannelloni_tms.Prelude.{ℕ, ◌+◌, ◌≡◌, Option, none, some, List, [], ◌∷◌, ◌++◌, length, Bool}

-- A packet buffer: the total length that it states, and the bytes of its first segment, to which
-- `p->payload` points. For an unchained buffer the two lengths agree.
pub record Pbuf : Type 0 where
  pub tot_len : ℕ
  pub payload : List ℕ

pub record Datagram : Type 0 where
  pub addr : ℕ
  pub port : ℕ
  pub payload : List ℕ

-- `Net` is the state of the stack. Addresses and control blocks are numbers. `handed` and `live`
-- observe it: the datagrams that were handed to `udp_sendto`, and how many buffers are allocated.
pub record Lwip : Type 1 where
  pub Net : Type 0
  pub udp_new : Net → Option ℕ × Net
  pub udp_bind : ℕ → ℕ → Net → Bool × Net
  pub udp_recv : ℕ → Net → Net
  pub pbuf_alloc : ℕ → Net → Option Pbuf × Net
  pub pbuf_free : Pbuf → Net → Net
  pub udp_sendto : Option ℕ → Pbuf → ℕ → ℕ → Net → Net
  pub handed : Net → List Datagram
  pub live : Net → ℕ
  -- A buffer allocated as PBUF_RAM is one segment of the size asked for.
  pub alloc_size :
      (size : ℕ) (n : Net) (p : Pbuf)
      → (pbuf_alloc size n).0 ≡ some p
      → (p.tot_len ≡ size) × (length p.payload ≡ size)
  pub handed-alloc : (size : ℕ) (n : Net) → handed (pbuf_alloc size n).1 ≡ handed n
  pub live-alloc :
      (size : ℕ) (n : Net) (p : Pbuf)
      → (pbuf_alloc size n).0 ≡ some p
      → live (pbuf_alloc size n).1 ≡ live n + 1
  pub live-alloc_none :
      (size : ℕ) (n : Net) → (pbuf_alloc size n).0 ≡ none → live (pbuf_alloc size n).1 ≡ live n
  pub handed-free : (p : Pbuf) (n : Net) → handed (pbuf_free p n) ≡ handed n
  pub live-free : (p : Pbuf) (n : Net) (k : ℕ) → live n ≡ k + 1 → live (pbuf_free p n) ≡ k
  pub handed-sendto :
      (pcb : Option ℕ) (p : Pbuf) (addr port : ℕ) (n : Net)
      → handed (udp_sendto pcb p addr port n)
        ≡ handed n ++ (record { addr = addr; port = port; payload = p.payload } ∷ [])
  pub live-sendto :
      (pcb : Option ℕ) (p : Pbuf) (addr port : ℕ) (n : Net)
      → live (udp_sendto pcb p addr port n) ≡ live n
