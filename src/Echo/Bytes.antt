-- ===== src/Echo/Bytes.antt =====
-- What is sent on a connection, and what is received.
use nnos.Prelude.{
  ℕ, zero, suc, ◌≡◌, Option, none, some, List, [], ◌∷◌, ◌++◌, if◌then◌else◌, leb, ltb, ◌==◌, refl,
  sym, ap, ◌∙◌, length, Option-cases, Bool-cases, inl, inr, Run, done, exited, blocked,
}
use mathlib.Core.List.{append_assoc}
use nnos.Echo.{
  FdSet, Net, Server, Event, received, sent, listening, opened, add, after_recv, after_send, visit,
  take, scan, round, serve, then_serve, scanned, after_select,
}
use nnos.Echo.Invariant.{visit-cases}

-- the bytes of a connection
abbrev pub received_bytes : ℕ → List Event → List ℕ
received_bytes c [] = []
received_bytes c (received sd (some id) bytes ∷ es) =
    let rest = received_bytes c es in if id == c then bytes ++ rest else rest
received_bytes c (_ ∷ es) = received_bytes c es

abbrev pub sent_bytes : ℕ → List Event → List ℕ
sent_bytes c [] = []
sent_bytes c (sent sd (some id) bytes ∷ es) =
    let rest = sent_bytes c es in if id == c then bytes ++ rest else rest
sent_bytes c (_ ∷ es) = sent_bytes c es

-- the events that a run leaves behind
abbrev pub log_of : {net : Net} → Run (Server net) (Unit {0}) → List Event
log_of (done _ v) = v.log
log_of (exited c v) = v.log
log_of blocked = []

abbrev Echoes : List Event → Type 0
Echoes es = (c : ℕ) → sent_bytes c es ≡ received_bytes c es

received_bytes-append :
    (c : ℕ) (xs ys : List Event)
    → received_bytes c (xs ++ ys) ≡ received_bytes c xs ++ received_bytes c ys
received_bytes-append c [] ys = refl
received_bytes-append c (received sd (some id) bytes ∷ xs) ys = elim (Bool-cases (id == c)) [
  | inl same ↦
      rw same (ap (λ l. bytes ++ l) (received_bytes-append c xs ys) ∙ sym (append_assoc bytes _ _))
  | inr other ↦ rw other (received_bytes-append c xs ys)
]
received_bytes-append c (e ∷ xs) ys = received_bytes-append c xs ys

sent_bytes-append :
    (c : ℕ) (xs ys : List Event) → sent_bytes c (xs ++ ys) ≡ sent_bytes c xs ++ sent_bytes c ys
sent_bytes-append c [] ys = refl
sent_bytes-append c (sent sd (some id) bytes ∷ xs) ys = elim (Bool-cases (id == c)) [
  | inl same ↦
      rw same (ap (λ l. bytes ++ l) (sent_bytes-append c xs ys) ∙ sym (append_assoc bytes _ _))
  | inr other ↦ rw other (sent_bytes-append c xs ys)
]
sent_bytes-append c (e ∷ xs) ys = sent_bytes-append c xs ys

Echoes-append : (xs ys : List Event) → Echoes xs → Echoes ys → Echoes (xs ++ ys)
Echoes-append xs ys p q c =
    sent_bytes-append c xs ys
    ∙ ap (λ l. l ++ sent_bytes c ys) (p c)
    ∙ ap (λ l. received_bytes c xs ++ l) (q c)
    ∙ sym (received_bytes-append c xs ys)

take-length : (xs : List ℕ) → take (length xs) xs ≡ xs
take-length [] = refl
take-length (x ∷ xs) = ap (λ l. x ∷ l) (take-length xs)

-- send(2) takes all the bytes that it is given
abbrev pub SendsAll : Net → Type 0
SendsAll net =
    (d : ℕ) (bytes : List ℕ) (w : net.World) → (net.send d bytes w).0 ≡ some (length bytes)

module _ (net : Net) (s dtsize : ℕ) where
  module _ (all : SendsAll net) where
    after_send-Echoes :
        (d : ℕ) (bytes : List ℕ) (q : Option ℕ × net.World) (v : Server net)
        → q.0 ≡ some (length bytes)
        → Echoes v.log
        → Echoes (after_send net d bytes q v).log
    after_send-Echoes d bytes (none, u) v e h = absurd (cc)
    after_send-Echoes d bytes (some n, u) v e h =
        let all_taken : n ≡ length bytes = cc in
        Echoes-append v.log _ h (λ c. elim (Option-cases (v.conn d)) [
          | inl no_one ↦ rw no_one refl
          | inr (id, one) ↦ rw (one, all_taken, take-length bytes) refl
        ])

    visit-Echoes :
        (ready : FdSet) (d : ℕ) (v : Server net)
        → Echoes v.log
        → Echoes (visit net s dtsize ready d v).log
    visit-Echoes ready d v h = elim (visit-cases net s dtsize ready d v) [
      | inl (silent, e) ↦ rw e h
      | inr (inl (asked, here, e)) ↦ rw e (added (net.accept (opened net v) v.world))
      | inr (inr (asked, there, e)) ↦ rw e (read (net.recv d v.world))
    ]
      where
        added : (r : Option ℕ × net.World) → Echoes (add net dtsize r v).log
        added (none, w) = h
        added (some cs, w) = elim (Bool-cases (leb dtsize cs)) [
          | inl full ↦ rw full (Echoes-append v.log _ h (λ c. refl))
          | inr room ↦ rw room (Echoes-append v.log _ h (λ c. refl))
        ]

        read : (r : Option (List ℕ) × net.World) → Echoes (after_recv net d r v).log
        read (none, w) = Echoes-append v.log _ h (λ c. refl)
        read (some [], w) = Echoes-append v.log _ h (λ c. refl)
        read (some (x ∷ xs), w) =
            after_send-Echoes d (x ∷ xs) (net.send d (x ∷ xs) w) v (all d (x ∷ xs) w) h

    abbrev ScanEchoes : Option (Server net) → Type 0
    ScanEchoes none = Unit
    ScanEchoes (some t) = Echoes t.log

    scan-Echoes :
        (fuel : ℕ) (ready : FdSet) (d : ℕ) (v : Server net)
        → Echoes v.log
        → ScanEchoes (scan net s dtsize fuel ready d v)
    unfolding scan
    scan-Echoes zero ready d v h = tt
    scan-Echoes (suc fuel) ready d v h = elim (Bool-cases (ltb d v.dsize)) [
      | inl more ↦
          rw more (
            scan-Echoes fuel ready (suc d) (visit net s dtsize ready d v)
              (visit-Echoes ready d v h))
      | inr past ↦ rw past h
    ]

    scanned-Echoes :
        (r : Option (Server net)) → ScanEchoes r → Echoes (log_of (scanned net s dtsize r))
    scanned-Echoes none h = λ c. refl
    scanned-Echoes (some t) h = h

    after_select-Echoes :
        (r : Option FdSet × net.World) (v : Server net)
        → Echoes v.log
        → Echoes (log_of (after_select net s dtsize r v))
    after_select-Echoes (none, w) v h = h
    after_select-Echoes (some ready, w) v h =
        scanned-Echoes _ (scan-Echoes (suc dtsize) ready 3 (record v { world = w }) h)

    then_serve-Echoes :
        (r : Run (Server net) (Unit {0})) (k : Server net → Run (Server net) (Unit {0}))
        → Echoes (log_of r)
        → ((v : Server net) → Echoes v.log → Echoes (log_of (k v)))
        → Echoes (log_of (then_serve net s dtsize r k))
    then_serve-Echoes (done _ v) k h next = next v h
    then_serve-Echoes (exited c v) k h next = h
    then_serve-Echoes blocked k h next = h

    serve-Echoes_from :
        (n : ℕ) (v : Server net) → Echoes v.log → Echoes (log_of (serve net s dtsize n v))
    unfolding serve round
    serve-Echoes_from zero v h = h
    serve-Echoes_from (suc n) v h =
        then_serve-Echoes (round net s dtsize v) (serve net s dtsize n)
          (after_select-Echoes (net.select v.rfd v.dsize v.world) v h) (serve-Echoes_from n)

    -- For every connection the bytes that the server has sent are those that it has received, in the
    -- same order, after any number of rounds, if send takes all the bytes that it is given.
    pub serve-Echoes :
        (n : ℕ) (w : net.World) (c : ℕ)
        → sent_bytes c (log_of (serve net s dtsize n (listening net s w)))
          ≡ received_bytes c (log_of (serve net s dtsize n (listening net s w)))
    unfolding listening
    serve-Echoes n w c = serve-Echoes_from n (listening net s w) (λ k. refl) c
