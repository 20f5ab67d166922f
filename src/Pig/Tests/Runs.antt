-- ===== src/Pig/Tests/Runs.antt =====
-- What a run proposes, what lasts, and what gets answered, on concrete calls.
use pigpaxos.Prelude.{◌<◌, ◌≤◌, ◌≡◌, ◌≢◌, refl, [], ◌∷◌, some, true, false, arith}
use pigpaxos.Ballot.{owner, new_ballot}
use pigpaxos.Quorum.{new_quorum, majority, ack}
use pigpaxos.Quorum.Valid.{ack_all}
use pigpaxos.Pig.Accept.{handle_request, handle_p2b}
use pigpaxos.Pig.Msg.{P2a}
use pigpaxos.Pig.State.{PigPaxos}
use pigpaxos.Pig.Step.{Event, accept, handle}
use pigpaxos.Pig.Run.{Run}
use pigpaxos.Pig.Proposals.{HasProposed}
use pigpaxos.Pig.Proposals.Once.{one_command_per_ballot}
use pigpaxos.Pig.Lasting.{Chosen}
use pigpaxos.Pig.Lasting.Calls.{committed_entry_lasts}
use pigpaxos.Pig.Tests.{
  three, one, two, put_seven, ask, first, ask_event, promise_event, leading, done, finished, after,
  ask_step, promise_step, number_start, number_asked, done_log, done-IsValid,
}
use pigpaxos.Pig.Progress.{answered, request_gets_answered}
use mathlib.Core.List.{Memᴰ}

leading_run : Run three one false leading
leading_run =
    Run.next (Run.next Run.start ask_event number_start tt ask_step) promise_event number_asked tt
      promise_step

abbrev proposed_p2a : P2a
proposed_p2a = record {
  ballot = first;
  slot = 0;
  global_execute = 0;
  command = put_seven;
  p3msg = record { ballot = first; slots = [] };
}

has_proposed : HasProposed leading proposed_p2a
unfolding after
has_proposed = Memᴰ.head refl

one_command_per_ballot_example :
    (first ≡ first → proposed_p2a.slot ≡ proposed_p2a.slot → put_seven ≡ put_seven)
    × (owner first ≡ one)
    × (first ≤ leading.ballot)
one_command_per_ballot_example =
    one_command_per_ballot three one false leading proposed_p2a proposed_p2a (omega arith)
      leading_run has_proposed has_proposed

-- A later proposal of a higher ballot for the slot that is done.
abbrev overtaking : Event
overtaking =
    accept
      (record {
        ballot = new_ballot 9 two;
        slot = 0;
        global_execute = 0;
        command = record put_seven { key = 8 };
        p3msg = record { ballot = 0; slots = [] };
      })
      two

abbrev overtaken : PigPaxos
overtaken = after overtaking done

overtaking_step : handle three overtaking done ≡ some overtaken
unfolding after
overtaking_step = refl

done_Chosen : Chosen 0 first put_seven done.log
done_Chosen = (finished, done_log, refl, refl, refl)

committed_entry_lasts_example : Chosen 0 first put_seven overtaken.log
committed_entry_lasts_example =
    committed_entry_lasts three overtaking done overtaken 0 first put_seven done-IsValid
      (omega arith) tt overtaking_step done_Chosen

leads_on : done.active ≡ true
unfolding after
leads_on = refl

ran_all : done.execute ≡ done.next_slot
unfolding after
ran_all = refl

done_known : done.ballot ≢ 0
unfolding after
done_known = omega arith

done_mine : owner done.ballot ≡ done.id
unfolding after
done_mine = refl

done_runs : done.reply_when_commit ≡ false
unfolding after
done_runs = refl

done_votes : majority three (ack_all (ack new_quorum done.id) (two ∷ [])) ≡ true
unfolding after
done_votes = refl

request_gets_answered_example :
    (q : PigPaxos) × (handle_p2b three 6_000_000 done.next_slot done.ballot
        (two ∷ [])
        (handle_request 5_000_000 ask done)
      ≡ some q)
    × (done.execute < q.execute)
    × Memᴰ (answered done put_seven ask) q.out
request_gets_answered_example =
    request_gets_answered three 5_000_000 6_000_000 (two ∷ []) done ask leads_on ran_all done_known
      done_mine done_runs done_votes
