-- ===== src/Tar/Source/Memory.antt =====
-- A source that stands in memory: a pipe, with memory for every request.
use qubes_core_agent_linux.Base.{
  refl, inl, arith, true, [], none, some, length, length-drop, take, drop, leb, Bytes,
  if◌then◌else◌,
}
use qubes_core_agent_linux.Tar.Source.{
  Source, IsStream, PipeOrFile, HasMemory, copy_file_ok, other, espipe,
}

abbrev pub memory_source : Source
memory_source = record {
  World = Bytes;
  read_all = λ n w. if leb n (length w) then (some (take n w), drop n w) else (none, []);
  copy_file_with_crc = λ n w.
      if leb n (length w)
      then record { status = copy_file_ok; bytes = take n w; world = drop n w }
      else record { status = other 1; bytes = w; world = [] };
  lseek = λ _ w. (espipe, w);
  malloc = λ _ w. (true, w);
}

unfoldable pub memory_source-IsStream : IsStream memory_source
memory_source-IsStream = record {
  input = λ w. w;
  read_all_enough = λ n w h. ground arith;
  read_all_short = λ n w h. ground arith;
  copy_enough = λ n w h. ground arith;
  read_all_shrinks = λ n w. ground (arith, length-drop n w);
  copy_shrinks = λ n w. ground (arith, length-drop n w);
  lseek_shrinks = λ n w. omega arith;
  malloc_input = λ n w. refl;
}

pub memory_source-PipeOrFile : PipeOrFile memory_source memory_source-IsStream
unfolding memory_source-IsStream
memory_source-PipeOrFile = record { lseek_lem = λ n w. inl (refl, refl) }

pub memory_source-HasMemory : HasMemory memory_source
memory_source-HasMemory = record { malloc_succeeds = λ n w. refl }
