-- ===== src/Tests/Wire.antt =====
-- Messages at concrete inputs.
use two_phase_commit_protoco.Base.{◌^◌, ◌%◌, ◌≡◌, refl, some, [], ◌∷◌, ◌++◌, length, arith}
use two_phase_commit_protoco.Base.Int.{of_word, pos}
use two_phase_commit_protoco.Tests.Data.{transfer, outdated}
use two_phase_commit_protoco.Word.{store_int, htonl}
use two_phase_commit_protoco.Messages.Transaction.{size, marshal, unmarshal, new_transaction}
use two_phase_commit_protoco.Messages.Transaction.RoundTrip.{
  IsConsistent, unmarshal-marshal, length-marshal,
}

pub transfer-IsConsistent : IsConsistent transfer
transfer-IsConsistent = record {
  id_range = omega arith;
  len_reads = refl;
  len_writes = refl;
  few_reads = omega arith;
  few_writes = omega arith;
  reads_range = omega arith;
  writes_range = omega arith;
}

unmarshal-marshal_example :
    unmarshal (new_transaction outdated) (marshal transfer ++ 7 ∷ []) ≡ some transfer
unmarshal-marshal_example = unmarshal-marshal outdated transfer (7 ∷ []) transfer-IsConsistent

length-marshal_example :
    (length (marshal transfer) ≡ 32)
    × (size transfer ≡ of_word (length (marshal transfer) % 2 ^ 32))
length-marshal_example = length-marshal transfer transfer-IsConsistent

-- 258 is 0x00000102, the most significant byte first.
network_order : store_int (htonl (pos 258)) ≡ 0 ∷ 0 ∷ 1 ∷ 2 ∷ []
unfolding store_int htonl
network_order = refl
