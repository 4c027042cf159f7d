-- ===== src/Tests/Polling.antt =====
-- tools/client/rpc.ts on three endpoints, of which two report one head.
use challenge_escrow_protoco.Prelude.{
  ◌≤◌, ◌≡◌, ◌↔◌, ◌↔◌, String, Bool, refl, true, false, none, some, List, [], ◌∷◌, arith, ltb,
  includes,
}
use challenge_escrow_protoco.Observer.Types.{Header, answered}
use challenge_escrow_protoco.Observer.Hex.{is_hash, all_hex, lower}
use challenge_escrow_protoco.Observer.Headers.{same_header}
use challenge_escrow_protoco.Quorum.Types.{
  Tag, Endpoint, EndpointSnapshot, Status, Report, reported,
}
use challenge_escrow_protoco.Quorum.Snapshot.{
  snapshot, read_number, read_three, examine, confirm, compare_again, judge, with_tags,
  coherent_pair, normalized_header,
}
use challenge_escrow_protoco.Quorum.Head.{
  quorum_head, group_from, add_vote, join_group, arrange, insert_group, sort_names, insert_name,
  winning, decide,
}
use challenge_escrow_protoco.Quorum.Report.{
  snapshots, report_on, is_name, all_name, compare_rpc_quorum,
}
use challenge_escrow_protoco.Quorum.Counting.{support}
use challenge_escrow_protoco.Quorum.Majority.{AgreesOn, quorum_head-agrees, quorum_head-support}
use challenge_escrow_protoco.Quorum.Agreement.{Agrees, compare_rpc_quorum-agree}
use challenge_escrow_protoco.Quorum.Divergence.{
  Comparison, divergent, compare_rpc_heads, divergence_of, compare_rpc_heads-divergent,
}
use challenge_escrow_protoco.Quorum.Serving.{shown, Serves}
use challenge_escrow_protoco.Quorum.Coherence.{snapshot-Serves}
use challenge_escrow_protoco.Tests.Observing.{block_1, block_2, other_2}

-- An endpoint that reports one head under the tag latest, and block 1 under the other two.
abbrev endpoint : String → Header → Endpoint
endpoint name head = record {
  name = name;
  has_tags = true;
  block_number = answered head.number;
  first_read = λ n. answered (some head);
  safe_read = answered (some block_1);
  finalized_read = answered (some block_1);
  last_read = λ n. answered (some head);
}

abbrev polled : String → Header → EndpointSnapshot
polled name head = record {
  name = name;
  latest = some head;
  safe = some block_1;
  finalized = some block_1;
  error = none;
}

abbrev three : List EndpointSnapshot
three = polled "a" block_2 ∷ polled "b" other_2 ∷ polled "c" block_2 ∷ []

abbrev by_number : Header → Header → Bool
by_number a b = ltb a.number b.number

abbrev in_order : String → String → Bool
in_order a b = false

snapshot_result : snapshot (endpoint "a" block_2) ≡ polled "a" block_2
unfolding snapshot read_number read_three examine confirm compare_again judge with_tags
    coherent_pair normalized_header is_hash all_hex lower
snapshot_result = refl

snapshot-Serves_example :
    (snapshot (endpoint "a" block_2) ≡ shown "a" block_2 block_1 block_1)
    ↔ Serves (endpoint "a" block_2) block_2 block_1 block_1
snapshot-Serves_example = snapshot-Serves (endpoint "a" block_2) block_2 block_1 block_1

two_votes : 2 ≤ support Tag.latest block_2 three
unfolding same_header lower
two_votes = omega arith

quorum_head-agrees_example : AgreesOn block_2 (quorum_head by_number three Tag.latest 2)
quorum_head-agrees_example =
    quorum_head-agrees by_number three Tag.latest 2 block_2 (omega arith) two_votes

agreed_head : (quorum_head by_number three Tag.latest 2).status ≡ Status.agree
unfolding quorum_head group_from add_vote join_group arrange insert_group sort_names insert_name
    winning decide same_header lower
agreed_head = refl

quorum_head-support_example :
    (h : Header) × ((quorum_head by_number three Tag.latest 2).agreed ≡ some h)
    × (2 ≤ support Tag.latest h three)
quorum_head-support_example = quorum_head-support by_number three Tag.latest 2 agreed_head

abbrev asked : List Endpoint
asked = endpoint "a" block_2 ∷ endpoint "b" other_2 ∷ endpoint "c" block_2 ∷ []

abbrev answer : Report
answer = report_on by_number (snapshots in_order asked) 2

asked_reported : compare_rpc_quorum in_order by_number asked 2 ≡ reported answer
unfolding compare_rpc_quorum is_name all_name includes
asked_reported = refl

compare_rpc_quorum-agree_example : (answer.status ≡ Status.agree) ↔ Agrees answer.endpoints 2
compare_rpc_quorum-agree_example =
    compare_rpc_quorum-agree in_order by_number asked 2 answer asked_reported

abbrev compared : Comparison
compared =
    divergence_of (
      report_on by_number (snapshots in_order (endpoint "a" block_2 ∷ endpoint "b" other_2 ∷ [])) 2)

pair_reported :
    compare_rpc_heads in_order by_number (endpoint "a" block_2) (endpoint "b" other_2)
    ≡ reported compared
unfolding compare_rpc_heads compare_rpc_quorum is_name all_name includes
pair_reported = refl

compare_rpc_heads-divergent_example :
    (compared.status ≡ divergent) ↔ ((tag : Tag) × (compared.divergence_at ≡ some tag))
compare_rpc_heads-divergent_example =
    compare_rpc_heads-divergent in_order by_number (endpoint "a" block_2) (endpoint "b" other_2)
      compared pair_reported
