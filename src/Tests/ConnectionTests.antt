-- ===== src/Tests/ConnectionTests.antt =====
-- An open connection whose buffer holds three bytes.
use dbdky_gcc.Common.{refl, [], ◌∷◌, true, false, arith}
use dbdky_gcc.Buffer.{Buffer, new_buffer}
use dbdky_gcc.Buffer.Bounds.{new_buffer-IsValid, Fits}
use dbdky_gcc.TcpConnection.{
  Connection, wrote, connected, new_connection, send_in_loop, handle_write,
}
use dbdky_gcc.TcpConnection.Valid.{IsValid, Delivers}
use dbdky_gcc.TcpConnection.Delivery.{send_in_loop-Delivers}
use dbdky_gcc.TcpConnection.Writing.{handle_write-Delivers}

abbrev opened : Connection
opened = record (new_connection true false) { state = connected }

opened-IsValid : IsValid opened
unfolding new_buffer
opened-IsValid = record {
  input = new_buffer-IsValid;
  output = new_buffer-IsValid;
  waits = λ o. refl;
  closed = λ o. absurd (cc o);
  drained = λ o t. absurd (cc t);
}

roomy : Fits opened.output 5
unfolding new_buffer
roomy = omega arith

send_in_loop-Delivers_example :
    Delivers
      (send_in_loop (1 ∷ 2 ∷ 3 ∷ 4 ∷ 5 ∷ []) (wrote 2) opened)
      opened
      (1 ∷ 2 ∷ 3 ∷ 4 ∷ 5 ∷ [])
send_in_loop-Delivers_example =
    send_in_loop-Delivers (1 ∷ 2 ∷ 3 ∷ 4 ∷ 5 ∷ []) (wrote 2) opened opened-IsValid roomy
      (omega arith, refl)

abbrev three_bytes : Buffer
three_bytes = record {
  bytes = 0 ∷ 0 ∷ 0 ∷ 0 ∷ 0 ∷ 0 ∷ 0 ∷ 0 ∷ 3 ∷ 4 ∷ 5 ∷ [];
  reader = 8;
  writer = 11;
}

abbrev waiting : Connection
waiting = record opened {
  interest = record { reading = true; writing = true };
  output = three_bytes;
  wire = 1 ∷ 2 ∷ [];
}

waiting-IsValid : IsValid waiting
waiting-IsValid = record {
  input = new_buffer-IsValid;
  output = omega arith;
  waits = λ o. refl;
  closed = λ o. absurd (cc o);
  drained = λ o t. absurd (cc t);
}

handle_write-Delivers_example : Delivers (handle_write (wrote 2) waiting) waiting []
handle_write-Delivers_example =
    handle_write-Delivers (wrote 2) waiting waiting-IsValid (omega arith, refl)
