-- ===== src/Transfer/Mail/Sample.antt =====
-- Messages on the sample library, by which the laws of messages hold.
use vapaa.Prelude.{
  ◌≡◌, refl, ap, ◌∙◌, inl, inr, ℕ, suc, ◌+◌, ◌*◌, ◌/◌, true, false, Option, none, some, List, [],
  ◌∷◌, map, ℤ, pos, pos_part, eq_ℤ, eq_ℤ-refl, length, row_quotient, Option-cases, if◌then◌else◌,
  arith,
}
use vapaa.Mpi.Laws.{TypeInfo, hvector_disps, hindexed_disps}
use vapaa.Mpi.Sample.{World, view, sample, derived}
use vapaa.Transfer.{Messages, Env}
use vapaa.Transfer.Mail.{Mail, MailLaws, Unseen, entry_bytes, contains, distinct}

eq_ℤ-sym : (a b : ℤ) → eq_ℤ a b ≡ false → eq_ℤ b a ≡ false
eq_ℤ-sym a b h = ground arith

-- Bytes put at addresses.
abbrev pub store : List ℤ → List ℕ → (ℤ → ℕ) → ℤ → ℕ
store [] bytes m x = m x
store (p ∷ ps) [] m x = m x
store (p ∷ ps) (b ∷ bytes) m x = if eq_ℤ x p then b else store ps bytes m x

map-other :
    (p : ℤ) (b : ℕ) (g : ℤ → ℕ) (ps : List ℤ)
    → contains p ps ≡ false
    → map (λ x. if eq_ℤ x p then b else g x) ps ≡ map g ps
map-other p b g [] h = refl
map-other p b g (q ∷ qs) h =
    let apart : eq_ℤ p q ≡ false = ground arith in
    let rest : contains p qs ≡ false = ground arith in
    rw (eq_ℤ-sym p q apart) (ap (λ (xs : List ℕ). g q ∷ xs) (map-other p b g qs rest))

pub store-stored :
    (ps : List ℤ) (bytes : List ℕ) (m : ℤ → ℕ)
    → distinct ps ≡ true
    → length bytes ≡ length ps
    → map (store ps bytes m) ps ≡ bytes
store-stored [] [] m h e = refl
store-stored [] (b ∷ bytes) m h e = absurd (omega arith)
store-stored (p ∷ ps) [] m h e = absurd (omega arith)
store-stored (p ∷ ps) (b ∷ bytes) m h e =
    let fresh : contains p ps ≡ false = ground arith in
    let rest : distinct ps ≡ true = ground arith in
    rw (eq_ℤ-refl p) (
      ap (λ (xs : List ℕ). b ∷ xs)
        (map-other p b (store ps bytes m) ps fresh ∙ store-stored ps bytes m rest (omega arith)))

pub store-elsewhere :
    (ps : List ℤ) (bytes : List ℕ) (m : ℤ → ℕ) (x : ℤ)
    → contains x ps ≡ false
    → store ps bytes m x ≡ m x
store-elsewhere [] bytes m x h = refl
store-elsewhere (p ∷ ps) [] m x h = refl
store-elsewhere (p ∷ ps) (b ∷ bytes) m x h =
    let apart : eq_ℤ x p ≡ false = ground arith in
    rw apart (store-elsewhere ps bytes m x (ground arith))

-- The bytes of each basic element, if they are equally long.
abbrev pub entry_size : TypeInfo → ℕ
entry_size i = i.size / length i.disps

pub entry_size_lem :
    (a : ℤ) (n e : ℕ) (i : TypeInfo)
    → i.size ≡ length i.disps * e
    → entry_bytes a n (entry_size i) i ≡ entry_bytes a n e i
entry_size_lem a n e i h = go i.disps refl
  where
    go : (ds : List ℤ) → i.disps ≡ ds → entry_bytes a n (entry_size i) i ≡ entry_bytes a n e i
    go [] d = rw d
    go (x ∷ xs) d =
        let size : i.size ≡ e * suc (length xs) + 0 = rw d at h ∙ omega arith in
        let same : i.size / suc (length xs) ≡ e =
          ap (λ (t : ℕ). t / suc (length xs)) size
          ∙ row_quotient e (suc (length xs)) 0 (omega arith) in
        ap (λ (t : ℕ). entry_bytes a n t i) (ap (λ (ds : List ℤ). i.size / length ds) d ∙ same)

abbrev pub sent_bytes : ℤ → ℕ → World → Option TypeInfo → List ℕ
sent_bytes a n w none = w.outgoing
sent_bytes a n w (some i) = map w.memory (entry_bytes a n (entry_size i) i)

abbrev pub memory_after : ℤ → ℕ → World → Option TypeInfo → ℤ → ℕ
memory_after a n w none = w.memory
memory_after a n w (some i) = store (entry_bytes a n (entry_size i) i) w.incoming w.memory

abbrev pub sample_mail : Mail World
sample_mail = record {
  memory = λ w. w.memory;
  sent = λ w dest tag comm. w.outgoing;
  arrived = λ w source tag comm. w.incoming;
}

-- The messages of `base`, but for a send and a receive that move bytes.
abbrev pub posting : Messages World → Messages World
posting base = record base {
  send = λ a n t dest tag comm w.
      (pos 0, record w { outgoing = sent_bytes a (pos_part n) w (view w t) });
  recv = λ a n t source tag comm status w.
      (pos 0, record w { memory = memory_after a (pos_part n) w (view w t) });
}

Unseen-trans :
    (u v w : World) → Unseen sample_mail u v → Unseen sample_mail v w → Unseen sample_mail u w
Unseen-trans u v w one two = record {
  memory = two.memory ∙ one.memory;
  sent = two.sent ∙ one.sent;
  arrived = two.arrived ∙ one.arrived;
}

derived-Unseen :
    (disps : TypeInfo → List ℤ) (size : TypeInfo → ℕ) (old : ℤ) (w : World)
    → Unseen sample_mail w (derived disps size old w).world
derived-Unseen disps size old w = elim (Option-cases (view w old)) [
  | inl gone ↦ rw (gone, derived) (record { memory = refl; sent = refl; arrived = refl })
  | inr (i, e) ↦ rw (e, derived) (record { memory = refl; sent = refl; arrived = refl })
]

pub sample_mail_laws :
    (env : Env World) (base : Messages World)
    → MailLaws (record env { mpi = sample; messages = posting base }) view sample_mail
sample_mail_laws env base = record {
  quiet = λ w. record {
    hvector = λ n b stride old v h. Unseen-trans w v _ h (
        derived-Unseen (hvector_disps (pos_part n) (pos_part b) stride)
          (λ i. pos_part n * pos_part b * i.size) old v);
    hindexed = λ n bs ds old v h.
        Unseen-trans w v _ h (derived-Unseen (hindexed_disps ds) (λ i. pos_part n * i.size) old v);
    commit = λ t v h. h;
    free = λ t v h. record { memory = h.memory; sent = h.sent; arrived = h.arrived };
  };
  send_law =
      λ a t dest tag comm n e w {i} h size. rw h (ap (map w.memory) (entry_size_lem a n e i size));
  send_memory = λ a t dest tag comm n w. refl;
  recv_law = λ a t source tag comm status n e w {i} h size apart fits.
      let same = entry_size_lem a n e i size in
      rw (h, same)
        (record {
          stored = store-stored (entry_bytes a n e i) w.incoming w.memory apart fits;
          elsewhere = store-elsewhere (entry_bytes a n e i) w.incoming w.memory;
        });
}
