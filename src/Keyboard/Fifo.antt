-- ===== src/Keyboard/Fifo.antt =====
-- Up to the first 1023 characters the ring is a queue.
use amog_os.Base.{
  ℕ, suc, ◌+◌, ◌%◌, ◌<◌, ◌≤◌, ◌≡◌, ◌≢◌, refl, List, [], ◌∷◌, ◌++◌, arith, ◌==◌, if◌then◌else◌,
  length, ap, true, false, ℕ_discrete,
}
use amog_os.Base.Memory.{update}
use amog_os.Keyboard.{Buffer, keyboard_push, keyboard_pop, buffer_size}

-- A key that the interrupt handler puts in, or a read by the process.
pub data Event : Type 0 where
  key : ℕ → Event
  read : Event

-- What the reads return.
pub run : Buffer → List Event → List ℕ
run k [] = []
run k (key c ∷ es) = run (keyboard_push c k) es
run k (read ∷ es) = let (c, k') = keyboard_pop k in c ∷ run k' es

-- The same of a queue of characters, where a read of the empty queue returns 0.
pub queue_run : List ℕ → List Event → List ℕ
queue_run q [] = []
queue_run q (key c ∷ es) = queue_run (if c == 0 then q else q ++ (c ∷ [])) es
queue_run [] (read ∷ es) = 0 ∷ queue_run [] es
queue_run (x ∷ q) (read ∷ es) = x ∷ queue_run q es

unfoldable pub keys : List Event → ℕ
keys [] = 0
keys (key c ∷ es) = suc (keys es)
keys (read ∷ es) = keys es

-- From index `i` the ring holds the characters `q`, none of them NUL, and NUL behind them.
abbrev Holds : (ℕ → ℕ) → ℕ → List ℕ → Type 0
Holds buf i [] = (j : ℕ) → i ≤ j → buf j ≡ 0
Holds buf i (x ∷ q) = (buf i ≡ x) × (x ≢ 0) × Holds buf (i + 1) q

pub record IsFifo (k : Buffer) (q : List ℕ) : Type 0 where
  pub held : Holds k.buf k.head q
  pub room : k.tail ≡ k.head + length q
  pub unwrapped : k.tail < buffer_size

Holds-push :
    (buf : ℕ → ℕ) (i t c : ℕ) (q : List ℕ)
    → Holds buf i q
    → t ≡ i + length q
    → c ≢ 0
    → Holds (update buf t c) i (q ++ (c ∷ []))
Holds-push buf i t c [] h e nz = (ground arith, nz, λ j ge. ground (arith, h j (omega arith)))
Holds-push buf i t c (x ∷ q) h e nz =
    (ground arith, h.1, Holds-push buf (i + 1) t c q h.2 (omega arith) nz)

length-snoc : (q : List ℕ) (c : ℕ) → length (q ++ (c ∷ [])) ≡ length q + 1
length-snoc [] c = refl
length-snoc (x ∷ q) c = omega (arith, length-snoc q c)

push-IsFifo :
    (k : Buffer) (q : List ℕ) (c : ℕ)
    → IsFifo k q
    → k.tail + 1 < buffer_size
    → IsFifo (keyboard_push c k) (if c == 0 then q else q ++ (c ∷ []))
unfolding keyboard_push
push-IsFifo k q c f lt = elim (ℕ_discrete c 0) [
  | yes z ↦ let z' : (c == 0) ≡ true = ground arith in rw z' f
  | no nz ↦
      let z' : (c == 0) ≡ false = ground arith in
      rw z' (record {
        held = Holds-push k.buf k.head k.tail c q f.held f.room nz;
        room = omega (arith, f.room, length-snoc q c);
        unwrapped = omega arith;
      })
]

pop-empty : (k : Buffer) → IsFifo k [] → keyboard_pop k ≡ (0, k)
unfolding keyboard_pop
pop-empty k f =
    let z : (k.buf k.head == 0) ≡ true = ground (arith, f.held k.head (omega arith)) in rw z

pop-cons :
    (k : Buffer) (x : ℕ) (q : List ℕ)
    → IsFifo k (x ∷ q)
    → ((keyboard_pop k).0 ≡ x) × IsFifo (keyboard_pop k).1 q × ((keyboard_pop k).1.tail ≡ k.tail)
unfolding keyboard_pop
pop-cons k x q f =
    let z : (k.buf k.head == 0) ≡ false = ground (arith, f.held) in
    let e : (k.head + 1) % buffer_size ≡ k.head + 1 = omega (arith, f.room, f.unwrapped) in
    rw z (
      f.held.0,
      record {
        held = rw e (f.held.2);
        room = rw e (omega (arith, f.room));
        unwrapped = f.unwrapped;
      },
      refl,
    )

tail-push : (k : Buffer) (c : ℕ) → k.tail + 1 < buffer_size → (keyboard_push c k).tail ≤ k.tail + 1
unfolding keyboard_push
tail-push k c lt = ground arith

run_queue :
    (es : List Event) (k : Buffer) (q : List ℕ)
    → IsFifo k q
    → k.tail + keys es < buffer_size
    → run k es ≡ queue_run q es
unfolding run queue_run keys
run_queue [] k q f lt = refl
run_queue (key c ∷ es) k q f lt =
    run_queue es (keyboard_push c k) _ (push-IsFifo k q c f (omega arith))
      (omega (arith, tail-push k c (omega arith)))
run_queue (read ∷ es) k [] f lt = rw (pop-empty k f) (ap (λ l. 0 ∷ l) (run_queue es k [] f lt))
run_queue (read ∷ es) k (x ∷ q) f lt =
    let p = pop-cons k x q f in
    rw p.0 (ap (λ l. x ∷ l) (run_queue es (keyboard_pop k).1 q p.1 (omega (arith, p.2))))

-- From an empty, cleared ring whose head and tail are at its start, any run of keys and reads with
-- fewer than 1024 keys returns what a queue returns: the characters in order, and 0 when all have
-- been read.
pub run_fifo :
    (es : List Event)
    → keys es < buffer_size
    → run (record { buf = λ _. 0; head = 0; tail = 0 }) es ≡ queue_run [] es
run_fifo es lt =
    run_queue es (record { buf = λ _. 0; head = 0; tail = 0 }) []
      (record { held = λ j ge. refl; room = refl; unwrapped = omega arith }) (omega arith)
