-- ===== src/Tests/Dcan.antt =====
-- A CAN controller with a memory of 64 messages, which is busy for one read of its status after a
-- transfer; a read of the status changes no register.
use cannelloni_tms.Prelude.{
  ℕ, ◌+◌, ◌-◌, ◌*◌, ◌/◌, ◌%◌, ◌^◌, ◌≤◌, ◌<◌, ◌≡◌, refl, ap, sym, ◌∙◌, subst, arith, bit_or, List,
  [], ◌∷◌, length, length-take, take, All, Bool, true, false, Bool-cases, inl, inr, ltb, ◌==◌,
  if◌then◌else◌, Option, none, some,
}
use cannelloni_tms.Prelude.{ok, Holds}
use cannelloni_tms.Prelude.Bits.{bit_or_disjoint}
use cannelloni_tms.Cannelloni.Frame.{IsByte}
use cannelloni_tms.Can.{Dcan, Hardware, can_if_wait_ready}
use cannelloni_tms.Can.Frames.{bus_order, eight}
use cannelloni_tms.Can.Wait.{polled, can_if_wait_ready_lem}
use cannelloni_tms.Can.Controller.{Controller, HasBytes, request, transfer, setup}
use cannelloni_tms.Can.Messages.{Message, Mailboxes, Shows}

pub record Ram : Type 0 where
  pub arb : ℕ → ℕ
  pub mctl : ℕ → ℕ
  pub dat : ℕ → List ℕ
  pub wait : ℕ

abbrev pub replaced {ℓ} : {A : Type ℓ} → (ℕ → A) → ℕ → A → ℕ → A
replaced f i x j = if j == i then x else f j

-- A command without its highest bit reads a message, and clears its mark.
abbrev started : Dcan Ram → Dcan Ram
started s =
    if ltb s.if1cmd 128
    then record s {
      if1arb = s.ram.arb s.if1no;
      if1mctl = s.ram.mctl s.if1no;
      if1dat = s.ram.dat s.if1no;
      ram = record s.ram {
        wait = 1;
        mctl = replaced s.ram.mctl s.if1no (s.ram.mctl s.if1no % 2 ^ 15);
      };
    }
    else record s {
      ram = record {
        wait = 1;
        arb = replaced s.ram.arb s.if1no s.if1arb;
        mctl = replaced s.ram.mctl s.if1no s.if1mctl;
        dat = if s.if1cmd == 0xFF then replaced s.ram.dat s.if1no s.if1dat else s.ram.dat;
      };
    }

abbrev pub dcan : Hardware Ram
dcan = record {
  poll = λ s. (
    if s.ram.wait == 0 then 0 else 0x80,
    record s { ram = record s.ram { wait = s.ram.wait - 1 } },
  );
  start = started;
}

-- What the memory of the controller is like.
pub record IsRam (r : Ram) : Type 0 where
  pub wait : r.wait ≤ 1
  pub size : (j : ℕ) → length (r.dat j) ≡ 8
  pub bytes : (j : ℕ) → All IsByte (r.dat j)
  pub short : (j : ℕ) → r.mctl j % 16 ≤ 8

pub record DcanWorks (h : Dcan Ram) : Type 0 where
  pub regs : HasBytes h
  pub memory : IsRam h.ram

after_poll : (h : Dcan Ram) → DcanWorks h → DcanWorks (dcan.poll h).1
after_poll h k =
    let w = k.memory.wait in
    record {
      regs = record { size = k.regs.size; bytes = k.regs.bytes };
      memory = record {
        wait = omega arith;
        size = k.memory.size;
        bytes = k.memory.bytes;
        short = k.memory.short;
      };
    }

-- A wait ends after one read or after two.
pub settled :
    (h : Dcan Ram)
    → DcanWorks h
    → (h' : Dcan Ram) × (can_if_wait_ready dcan 2 h ≡ ok h')
      × DcanWorks h'
      × (h'.if1arb ≡ h.if1arb)
      × (h'.if1mctl ≡ h.if1mctl)
      × (h'.if1dat ≡ h.if1dat)
      × (h'.ram.arb ≡ h.ram.arb)
      × (h'.ram.mctl ≡ h.ram.mctl)
      × (h'.ram.dat ≡ h.ram.dat)
settled h k =
    let w = k.memory.wait in
    elim (Bool-cases (h.ram.wait == 0)) [
      | inl idle ↦ (
        polled dcan 1 h,
        can_if_wait_ready_lem dcan 0 2 h (omega arith) (λ k k_lt. absurd (omega arith))
            (rw idle refl),
        after_poll h k,
        refl,
        refl,
        refl,
        refl,
        refl,
        refl,
      )
      | inr busy ↦
          let done : (h.ram.wait - 1 == 0) ≡ true = ground arith in
          (
            polled dcan 2 h,
            can_if_wait_ready_lem dcan 1 2 h (omega arith)
                (λ k k_lt. let e : k ≡ 0 = omega arith in rw (e, busy) refl) (rw done refl),
            after_poll (dcan.poll h).1 (after_poll h k),
            refl,
            refl,
            refl,
            refl,
            refl,
            refl,
          )
    ]

replaced-short :
    (f : ℕ → ℕ) (i x : ℕ)
    → ((j : ℕ) → f j % 16 ≤ 8)
    → x % 16 ≤ 8
    → (j : ℕ) → replaced f i x j % 16 ≤ 8
replaced-short f i x h k j = elim (Bool-cases (j == i)) [ inl e ↦ rw e k | inr e ↦ rw e (h j) ]

replaced-Bytes :
    (f : ℕ → List ℕ) (i : ℕ) (x : List ℕ)
    → ((j : ℕ) → (length (f j) ≡ 8) × All IsByte (f j))
    → (length x ≡ 8) × All IsByte x
    → (j : ℕ) → (length (replaced f i x j) ≡ 8) × All IsByte (replaced f i x j)
replaced-Bytes f i x h k j = elim (Bool-cases (j == i)) [ inl e ↦ rw e k | inr e ↦ rw e (h j) ]

init-short : (h : Dcan Ram) (mbox : ℕ) → (setup h mbox).if1mctl % 16 ≤ 8
init-short h mbox = elim (Bool-cases (mbox == 64)) [
  | inl e ↦ rw e (omega arith)
  | inr e ↦ rw e (omega arith)
]

sent-short : (dlc : ℕ) → dlc ≤ 8 → bit_or (bit_or (2 ^ 15) (2 ^ 8)) dlc % 16 ≤ 8
sent-short dlc h = omega (arith, bit_or_disjoint 8 129 dlc (omega arith))

slots : {r : Ram} → IsRam r → (j : ℕ) → (length (r.dat j) ≡ 8) × All IsByte (r.dat j)
slots k j = (k.size j, k.bytes j)

pub asked : (h : Dcan Ram) (mbox : ℕ) → DcanWorks h → DcanWorks (request dcan h mbox)
asked h mbox k =
    let short = k.memory.short mbox in
    record {
      regs = record { size = k.memory.size mbox; bytes = k.memory.bytes mbox };
      memory = record {
        wait = omega arith;
        size = k.memory.size;
        bytes = k.memory.bytes;
        short =
            replaced-short h.ram.mctl mbox (h.ram.mctl mbox % 2 ^ 15) k.memory.short (omega arith);
      };
    }

pub sending :
    (h : Dcan Ram) (id dlc : ℕ) (dat : List ℕ)
    → DcanWorks h
    → dlc ≤ 8
    → length dat ≡ 8
    → All IsByte dat
    → DcanWorks (dcan.start (transfer h id dlc dat))
sending h id dlc dat k short size all =
    let new = replaced-Bytes h.ram.dat 1 dat (slots k.memory) (size, all) in
    record {
      regs = record { size = size; bytes = all };
      memory = record {
        wait = omega arith;
        size = λ j. (new j).0;
        bytes = λ j. (new j).1;
        short = replaced-short h.ram.mctl 1 _ k.memory.short (sent-short dlc short);
      };
    }

pub setting_up : (h : Dcan Ram) (mbox : ℕ) → DcanWorks h → DcanWorks (dcan.start (setup h mbox))
setting_up h mbox k = record {
  regs = record { size = k.regs.size; bytes = k.regs.bytes };
  memory = record {
    wait = omega arith;
    size = k.memory.size;
    bytes = k.memory.bytes;
    short = replaced-short h.ram.mctl mbox _ k.memory.short (init-short h mbox);
  };
}

pub configuring :
    (h : Dcan Ram) (ctl btr tioc rioc : ℕ)
    → DcanWorks h
    → DcanWorks (record h { ctl = ctl; btr = btr; tioc = tioc; rioc = rioc })
configuring h ctl btr tioc rioc k = record {
  regs = record { size = k.regs.size; bytes = k.regs.bytes };
  memory = k.memory;
}

abbrev pub dcan_controller : Controller dcan 2
dcan_controller = record {
  Works = DcanWorks;
  Asked = λ h. DcanWorks h × (h.if1mctl % 16 ≤ 8);
  wait = λ h k. let s = settled h k in (s.0, s.1, s.2, s.2.regs);
  ask = λ h mbox k within. (asked h mbox k, k.memory.short mbox);
  answer = λ h k.
      let s = settled h k.0 in (s.0, s.1, s.2, s.2.regs, subst (λ x. x % 16 ≤ 8) (sym s.4) k.1);
  send = sending;
  set_up = setting_up;
  configure = configuring;
}

-- The message that a mailbox holds, if it is marked as new.
abbrev pub extended_in : ℕ → Bool
extended_in arb = arb / 2 ^ 30 % 2 == 1

abbrev pub held : ℕ → ℕ → List ℕ → Message
held arb mctl dat = record {
  extended = extended_in arb;
  ident = if extended_in arb then arb % 2 ^ 29 else arb % 2 ^ 29 / 2 ^ 18;
  body = take (mctl % 16) (bus_order dat);
}

abbrev pub message_of : ℕ → ℕ → List ℕ → Option Message
message_of arb mctl dat = elim (mctl / 2 ^ 15 % 2 == 1) [
  | true ↦ some (held arb mctl dat)
  | false ↦ none
]

abbrev pub message_in : Ram → ℕ → Option Message
message_in r j = message_of (r.arb j) (r.mctl j) (r.dat j)

length-bus_order : (dat : List ℕ) → length dat ≡ 8 → length (bus_order dat) ≡ 8
length-bus_order dat size = let (a, b, c, d, e, f, g, h, dat_eq) = eight dat size in rw dat_eq refl

shown :
    (h : Dcan Ram)
    → length h.if1dat ≡ 8
    → h.if1mctl % 16 ≤ 8
    → Shows (message_of h.if1arb h.if1mctl h.if1dat) h
shown h full short = elim (Bool-cases (h.if1mctl / 2 ^ 15 % 2 == 1)) [
  | inl new ↦
      let e : message_of h.if1arb h.if1mctl h.if1dat ≡ some (held h.if1arb h.if1mctl h.if1dat) =
        rw (message_of, new) refl in
      let size = length-bus_order h.if1dat full in
      subst (λ o. Shows o h) (sym e)
        (record {
          new = ground arith;
          kind = ground arith;
          ident = refl;
          len = omega (arith, length-take (h.if1mctl % 16) (bus_order h.if1dat));
          body = refl;
        })
  | inr old ↦
      let e : message_of h.if1arb h.if1mctl h.if1dat ≡ none = rw (message_of, old) refl in
      subst (λ o. Shows o h) (sym e) (ground arith)
]

-- Only the mark of the mailbox that is asked for is cleared.
message_of-same :
    (a a' m m' : ℕ) (d d' : List ℕ)
    → a' ≡ a
    → m' ≡ m
    → d' ≡ d
    → message_of a' m' d' ≡ message_of a m d
message_of-same a a' m m' d d' ea em ed =
    ap (λ x. message_of x m' d') ea ∙ ap (λ x. message_of a x d') em ∙ ap (λ x. message_of a m x) ed

pub quietly :
    (h h' : Dcan Ram) (j : ℕ)
    → DcanWorks h
    → can_if_wait_ready dcan 2 h ≡ ok h'
    → message_in h'.ram j ≡ message_in h.ram j
quietly h h' j k run =
    let s = settled h k in
    subst (Holds (λ x. message_in x.ram j ≡ message_in h.ram j)) (sym s.1 ∙ run)
      (message_of-same _ _ _ _ _ _ (ap (λ f. f j) s.6) (ap (λ f. f j) s.7) (ap (λ f. f j) s.8))

abbrev Given : Dcan Ram → ℕ → Dcan Ram → Type 0
Given h mbox h' =
    Shows (message_in h.ram mbox) h'
    × ((j : ℕ) → mbox < j → message_in h'.ram j ≡ message_in h.ram j)

pub giving :
    (h h' : Dcan Ram) (mbox : ℕ)
    → DcanWorks h
    → mbox ≤ 64
    → can_if_wait_ready dcan 2 (request dcan h mbox) ≡ ok h'
    → Given h mbox h'
giving h h' mbox k within run =
    let s = settled (request dcan h mbox) (asked h mbox k) in
    subst (Holds (Given h mbox)) (sym s.1 ∙ run) (
      subst (λ o. Shows o s.0) (message_of-same _ _ _ _ _ _ s.3 s.4 s.5)
          (shown s.0 (ap length s.5 ∙ k.memory.size mbox)
            (subst (λ x. x % 16 ≤ 8) (sym s.4) (k.memory.short mbox))),
      λ j behind.
          let other : (j == mbox) ≡ false = ground arith in
          message_of-same _ _ _ _ _ _ (ap (λ f. f j) s.6) (ap (λ f. f j) s.7 ∙ rw other refl)
            (ap (λ f. f j) s.8),
    )

abbrev pub dcan_mailboxes : Mailboxes dcan_controller
dcan_mailboxes = record { message = λ h j. message_in h.ram j; quiet = quietly; given = giving }

-- In mailbox 2 a standard message of three bytes, in mailbox 3 an extended one of eight.
abbrev first_bytes : List ℕ
first_bytes = 4 ∷ 3 ∷ 2 ∷ 1 ∷ 0 ∷ 0 ∷ 0 ∷ 5 ∷ []

abbrev memory : Ram
memory = record {
  arb = λ j. if j == 3 then 0xC000_0042 else 0x8000_0000 + 0x123 * 2 ^ 18;
  mctl = λ j. if j == 2 then 0x8003 else if j == 3 then 0x8008 else 0x400;
  dat = λ j. first_bytes;
  wait = 0;
}

abbrev pub powered : Dcan Ram
powered = record {
  ctl = 1;
  btr = 0;
  tioc = 0;
  rioc = 0;
  if1msk = 0;
  if1arb = 0;
  if1mctl = 0x100F;
  if1dat = first_bytes;
  if1cmd = 0;
  if1no = 0;
  txrq = 0;
  ram = memory;
}

memory_short : (j : ℕ) → memory.mctl j % 16 ≤ 8
memory_short j = elim (Bool-cases (j == 2)) [
  | inl e ↦ rw e (omega arith)
  | inr e ↦ elim (Bool-cases (j == 3)) [
    | inl f ↦ rw (e, f) (omega arith)
    | inr f ↦ rw (e, f) (omega arith)
  ]
]

pub powered-Works : DcanWorks powered
powered-Works = record {
  regs = record { size = refl; bytes = omega arith };
  memory = record {
    wait = omega arith;
    size = λ j. refl;
    bytes = λ j. omega arith;
    short = memory_short;
  };
}
