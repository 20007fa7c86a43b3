-- ===== src/Thread/Balance.antt =====
-- vm/vm.cpp: a call of a function and its return give the caller its registers back.
use letin.Common.{
  ℕ, ◌+◌, ◌-◌, ◌/◌, ◌%◌, ◌^◌, ◌<◌, ◌≡◌, ◌≢◌, ◌∙◌, true, false, List, some, length, get_elem?, set,
  length-set, get_elem?-set_ne, get_elem?-set_self, lt→ltb, arith, if◌then◌else◌, ◌==◌,
}
use letin.Thread.Calls.{enter_to_fun, leave_from_fun, pack_fp, unpack_fp, restore_frame}
use letin.Thread.Frames.{Keeps}
use letin.Thread.State.{Value, int, pair, Registers, Context, Method, u32, read, write, ◌>>=◌}

pub bind_lem :
    {A B : Type 0} (m : Method A) (f : A → Method B) (c c' : Context) (a : A)
    → m c ≡ some (a, c')
    → (m >>= f) c ≡ f a c'
bind_lem m f c c' a h = rw (h, ◌>>=◌)

write_lem :
    (i : ℕ) (v : Value) (c : Context)
    → i < length c.stack
    → write i v c ≡ some (tt, record c { stack = set c.stack i v })
unfolding write
write_lem i v c h = rw (lt→ltb _ _ h)

pub read_lem :
    (i : ℕ) (v : Value) (c : Context) → get_elem? c.stack i ≡ some v → read i c ≡ some (v, c)
unfolding read
read_lem i v c h = rw (h, read)

-- Slots `k`, `k + 1`, `k + 2`, `k + 3` written in this order.
abbrev pub framed : ℕ → Registers → List Value → List Value
framed k r s =
    set
      (set (set (set s k (pair r.abp r.ac)) (k + 1) (pair r.lvc (u32 (r.ip + 2 ^ 32 - 1)))) (k + 2)
        (int (pack_fp r)))
      (k + 3) (pair r.evbp r.evc)

abbrev pub entered : ℕ → Context → Context
entered i c = record c {
  regs = record c.regs {
    abp = c.abp2;
    ac = c.ac2;
    abp2 = u32 (c.abp2 + c.ac2 + 4);
    lvc = 0;
    ac2 = 0;
    sec = u32 (c.abp2 + c.ac2 + 4);
    evbp = u32 (c.evbp + c.evc);
    evc = 0;
    esec = u32 (c.evbp + c.evc);
    fp = i;
    ip = 0;
    after_leaving_flag0 = false;
    after_leaving_flag1 = false;
    after_leaving_flag_index = 0;
  };
  stack = framed (c.abp2 + c.ac2) c.regs c.stack;
}

pub enter_lem :
    (i : ℕ) (c : Context)
    → length c.stack < 2 ^ 31
    → c.abp2 + c.ac2 + 4 < length c.stack
    → enter_to_fun i c ≡ some (true, entered i c)
unfolding enter_to_fun
enter_lem i c small room =
    let k = c.abp2 + c.ac2 in
    let e : u32 (k + 4) ≡ k + 4 = omega arith in
    let e0 : u32 (k + 0) ≡ k = omega arith in
    let e1 : u32 (k + 1) ≡ k + 1 = omega arith in
    let e2 : u32 (k + 2) ≡ k + 2 = omega arith in
    let e3 : u32 (k + 3) ≡ k + 3 = omega arith in
    let s0 = set c.stack k (pair c.abp c.ac) in
    let s1 = set s0 (k + 1) (pair c.lvc (u32 (c.ip + 2 ^ 32 - 1))) in
    let s2 = set s1 (k + 2) (int (pack_fp c.regs)) in
    let l0 : length s0 ≡ length c.stack = length-set c.stack k _ in
    let l1 : length s1 ≡ length c.stack = length-set s0 (k + 1) _ ∙ l0 in
    let l2 : length s2 ≡ length c.stack = length-set s1 (k + 2) _ ∙ l1 in
    rw (e0, e1, e2, e3, lt→ltb (u32 (k + 4)) (length c.stack) (omega arith))
      (bind_lem (write k _) _ _ _ _ (write_lem k _ c (omega arith))
        ∙ bind_lem (write (k + 1) _) _ _ _ _
            (write_lem (k + 1) _ (record c { stack = s0 }) (omega arith))
        ∙ bind_lem (write (k + 2) _) _ _ _ _
            (write_lem (k + 2) _ (record c { stack = s1 }) (omega arith))
        ∙ bind_lem (write (k + 3) _) _ _ _ _
            (write_lem (k + 3) _ (record c { stack = s2 }) (omega arith)))

-- The slots of a frame, and what stands under it.
pub framed_slots :
    (k : ℕ) (r : Registers) (s : List Value)
    → k + 4 < length s
    → (get_elem? (framed k r s) k ≡ some (pair r.abp r.ac))
      × (get_elem? (framed k r s) (k + 1) ≡ some (pair r.lvc (u32 (r.ip + 2 ^ 32 - 1))))
      × (get_elem? (framed k r s) (k + 2) ≡ some (int (pack_fp r)))
      × (get_elem? (framed k r s) (k + 3) ≡ some (pair r.evbp r.evc))
      × (length (framed k r s) ≡ length s)
      × ((i : ℕ) → i < k → get_elem? (framed k r s) i ≡ get_elem? s i)
framed_slots k r s h =
    let a0 = pair r.abp r.ac in
    let a1 = pair r.lvc (u32 (r.ip + 2 ^ 32 - 1)) in
    let a2 = int (pack_fp r) in
    let a3 = pair r.evbp r.evc in
    let s0 = set s k a0 in
    let s1 = set s0 (k + 1) a1 in
    let s2 = set s1 (k + 2) a2 in
    let l0 = length-set s k a0 in
    let l1 = length-set s0 (k + 1) a1 in
    let l2 = length-set s1 (k + 2) a2 in
    let l3 = length-set s2 (k + 3) a3 in
    let other3 = λ (i : ℕ) (ne : k + 3 ≢ i). get_elem?-set_ne s2 {i = k + 3} {j = i} a3 ne in
    let other2 = λ (i : ℕ) (ne : k + 2 ≢ i). get_elem?-set_ne s1 {i = k + 2} {j = i} a2 ne in
    let other1 = λ (i : ℕ) (ne : k + 1 ≢ i). get_elem?-set_ne s0 {i = k + 1} {j = i} a1 ne in
    let other0 = λ (i : ℕ) (ne : k ≢ i). get_elem?-set_ne s {i = k} {j = i} a0 ne in
    (
      other3 k (omega arith)
          ∙ other2 k (omega arith)
          ∙ other1 k (omega arith)
          ∙ get_elem?-set_self s k a0 (omega arith),
      other3 (k + 1) (omega arith)
          ∙ other2 (k + 1) (omega arith)
          ∙ get_elem?-set_self s0 (k + 1) a1 (omega arith),
      other3 (k + 2) (omega arith) ∙ get_elem?-set_self s1 (k + 2) a2 (omega arith),
      get_elem?-set_self s2 (k + 3) a3 (omega arith),
      l3 ∙ l2 ∙ l1 ∙ l0,
      λ i lt.
          other3 i (omega arith)
          ∙ other2 i (omega arith)
          ∙ other1 i (omega arith)
          ∙ other0 i (omega arith),
    )

-- The frame of `c` holds the registers `r` of its caller.
pub record Holds (r : Registers) (c : Context) : Type 0 where
  pub abp : c.abp ≡ r.abp2
  pub ac : c.ac ≡ r.ac2
  pub evbp : c.evbp ≡ r.evbp + r.evc
  pub room : c.abp + c.ac + 4 < length c.stack
  pub slot0 : get_elem? c.stack (c.abp + c.ac) ≡ some (pair r.abp r.ac)
  pub slot1 : get_elem? c.stack (c.abp + c.ac + 1) ≡ some (pair r.lvc (u32 (r.ip + 2 ^ 32 - 1)))
  pub slot2 : get_elem? c.stack (c.abp + c.ac + 2) ≡ some (int (pack_fp r))
  pub slot3 : get_elem? c.stack (c.abp + c.ac + 3) ≡ some (pair r.evbp r.evc)

pub Keeps-Holds : (r : Registers) (c d : Context) → Holds r c → Keeps c d → Holds r d
Keeps-Holds r c d h k =
    let e : d.abp + d.ac ≡ c.abp + c.ac = omega (arith, k.abp, k.ac) in
    record {
      abp = k.abp ∙ h.abp;
      ac = k.ac ∙ h.ac;
      evbp = k.evbp ∙ h.evbp;
      room = omega (arith, k.size, h.room);
      slot0 = rw e (k.slots (c.abp + c.ac) (omega arith) (omega arith) ∙ h.slot0);
      slot1 = rw e (k.slots (c.abp + c.ac + 1) (omega arith) (omega arith) ∙ h.slot1);
      slot2 = rw e (k.slots (c.abp + c.ac + 2) (omega arith) (omega arith) ∙ h.slot2);
      slot3 = rw e (k.slots (c.abp + c.ac + 3) (omega arith) (omega arith) ∙ h.slot3);
    }

-- The registers after a return into the caller with registers `r`.
abbrev pub returned : Registers → Registers → Registers
returned r q = record q {
  abp2 = q.abp;
  ac2 = q.ac;
  abp = r.abp;
  ac = r.ac;
  lvc = r.lvc;
  sec = q.abp;
  ip = u32 (r.ip + 2 ^ 32 - 1);
  fp = unpack_fp (pack_fp r);
  after_leaving_flag_index = pack_fp r % 2;
  after_leaving_flag0 = if pack_fp r % 2 == 0 then true else q.after_leaving_flag0;
  after_leaving_flag1 = if pack_fp r % 2 == 0 then q.after_leaving_flag1 else true;
  cached_fun_result_flag = pack_fp r / 2 % 2;
  evbp = r.evbp;
  evc = r.evc;
  esec = u32 (r.evbp + r.evc);
}

-- The frame at the arguments' end holds the registers `r`.
pub record Framed (r : Registers) (c : Context) : Type 0 where
  pub room : c.abp + c.ac + 4 < length c.stack
  pub slot0 : get_elem? c.stack (c.abp + c.ac) ≡ some (pair r.abp r.ac)
  pub slot1 : get_elem? c.stack (c.abp + c.ac + 1) ≡ some (pair r.lvc (u32 (r.ip + 2 ^ 32 - 1)))
  pub slot2 : get_elem? c.stack (c.abp + c.ac + 2) ≡ some (int (pack_fp r))
  pub slot3 : get_elem? c.stack (c.abp + c.ac + 3) ≡ some (pair r.evbp r.evc)

pub leave_frame_lem :
    (r : Registers) (c : Context)
    → length c.stack < 2 ^ 31
    → Framed r c
    → leave_from_fun c ≡ some (true, record c { regs = returned r c.regs })
unfolding leave_from_fun restore_frame
leave_frame_lem r c small h =
    let k = c.abp + c.ac in
    let room = h.room in
    let e : u32 k ≡ k = omega arith in
    let e0 : u32 (k + 0) ≡ k = omega arith in
    let e1 : u32 (k + 1) ≡ k + 1 = omega arith in
    let e2 : u32 (k + 2) ≡ k + 2 = omega arith in
    let e3 : u32 (k + 3) ≡ k + 3 = omega arith in
    rw (e, e0, e1, e2, e3, lt→ltb (u32 (k + 4)) (length c.stack) (omega arith))
      (bind_lem (read k) _ c c _ (read_lem k _ c h.slot0)
        ∙ bind_lem (read (k + 1)) _ c c _ (read_lem (k + 1) _ c h.slot1)
        ∙ bind_lem (read (k + 2)) _ c c _ (read_lem (k + 2) _ c h.slot2)
        ∙ bind_lem (read (k + 3)) _ c c _ (read_lem (k + 3) _ c h.slot3))

pub leave_lem :
    (r : Registers) (c : Context)
    → length c.stack < 2 ^ 31
    → Holds r c
    → leave_from_fun c ≡ some (true, record c { regs = returned r c.regs })
leave_lem r c small h =
    leave_frame_lem r c small
      (record { room = h.room; slot0 = h.slot0; slot1 = h.slot1; slot2 = h.slot2; slot3 = h.slot3 })
