-- ===== src/Keyboard/Tests.antt =====
-- A run of the ring.
use amog_os.Base.{◌≡◌, [], ◌∷◌, arith}
use amog_os.Keyboard.Fifo.{keys, key, read, run, queue_run, run_fifo}

run_fifo_example :
    run
      (record { buf = λ _. 0; head = 0; tail = 0 })
      (key b'h' ∷ key b'i' ∷ read ∷ key b'!' ∷ read ∷ read ∷ read ∷ [])
    ≡ queue_run [] (key b'h' ∷ key b'i' ∷ read ∷ key b'!' ∷ read ∷ read ∷ read ∷ [])
unfolding keys
run_fifo_example =
    run_fifo (key b'h' ∷ key b'i' ∷ read ∷ key b'!' ∷ read ∷ read ∷ read ∷ []) (omega arith)
