-- ===== src/Memory/Answers.antt =====
-- The services in memory answer.
use containerdosstore.Prelude.{arith}
use containerdosstore.Services.Ends.{CallsAnswer}
use containerdosstore.Memory.Runs.{memory, memory_runs}

pub memory_answers : CallsAnswer memory
unfolding memory_runs
memory_answers = record {
  with_lease = λ ctx os s e. ground arith;
  release = λ d ctx s e. ground arith;
  delete_lease = λ ctx id s e. ground arith;
  unmount_all = λ target flags s e. ground arith;
  get_image = λ ctx name s e. ground arith;
  is_unpacked = λ ctx img driver s e. ground arith;
  root_fs = λ ctx img s e. ground arith;
  delete_image = λ ctx name os s e. ground arith;
}
