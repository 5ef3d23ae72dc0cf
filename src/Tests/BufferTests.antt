-- ===== src/Tests/BufferTests.antt =====
-- A new buffer, and what is written into it.
use dbdky_gcc.Common.{◌≡◌, [], ◌∷◌, ◌++◌, replicate, some, ◌>>=◌, arith}
use dbdky_gcc.Buffer.{Buffer, content, prepend_int32, read_int32}
use dbdky_gcc.Buffer.Bounds.{IsValid}
use dbdky_gcc.Buffer.Refine.{puts, step, spec_step, Refines, step-Refines, read_int32-prepend_int32}

-- Ten bytes, of which "hello" is readable behind a front of 4.
abbrev hello : Buffer
hello = record {
  bytes = replicate 4 0 ++ (104 ∷ 101 ∷ 108 ∷ 108 ∷ 111 ∷ 0 ∷ []);
  reader = 4;
  writer = 9;
}

hello-IsValid : IsValid hello
hello-IsValid = record {
  order = omega arith;
  within = omega arith;
  room = omega arith;
  size = omega arith;
}

abbrev blank_buffer : Buffer
blank_buffer = record { bytes = replicate 16 0; reader = 8; writer = 8 }

blank_buffer-IsValid : IsValid blank_buffer
blank_buffer-IsValid = record {
  order = omega arith;
  within = omega arith;
  room = omega arith;
  size = omega arith;
}

step-Refines_example :
    Refines (step hello (puts (33 ∷ 33 ∷ []))) (spec_step (content hello) (puts (33 ∷ 33 ∷ [])))
step-Refines_example = step-Refines hello (puts (33 ∷ 33 ∷ [])) hello-IsValid (omega arith)

read_int32-prepend_int32_example :
    (b' : Buffer) × ((prepend_int32 hello 70000 >>= read_int32) ≡ some (70000, b'))
    × IsValid b'
    × (content b' ≡ content hello)
read_int32-prepend_int32_example =
    read_int32-prepend_int32 hello 70000 (omega arith) hello-IsValid (omega arith)
