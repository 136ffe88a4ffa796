-- ===== src/Tests/Encodings.antt =====
-- What is hashed for votes and headers of primary/src/messages.rs.
use bullshark_ubuntu.Base.{◌≡◌, ◌≢◌, refl, List, [], ◌∷◌, length, le_bytes, be_bytes, arith}
use bullshark_ubuntu.Config.{WorkerId}
use bullshark_ubuntu.Crypto.{Digest}
use bullshark_ubuntu.Messages.Header.{Header, default}
use bullshark_ubuntu.Messages.Header
use bullshark_ubuntu.Messages.Vote.{hashed_bytes}
use bullshark_ubuntu.Messages.Encoding.{
  read_vote, read_batch_key, read_vote-hashed_bytes, read_batch_key-batch_key,
}
use bullshark_ubuntu.Core.State.{batch_key}

read_vote-hashed_bytes_example : read_vote (hashed_bytes 5 7 9) ≡ (5, 7, 9)
read_vote-hashed_bytes_example =
    read_vote-hashed_bytes 5 7 9 (omega arith) (omega arith) (omega arith)

read_batch_key-batch_key_example : read_batch_key (batch_key 5 1) ≡ (5, 1)
read_batch_key-batch_key_example = read_batch_key-batch_key 5 1 (omega arith) (omega arith)

-- Eight batches of worker 0, in the order of a `BTreeMap`, have as many bytes as nine parents.
abbrev eight_batches : List (Digest × WorkerId)
eight_batches =
    (0, 0)
    ∷ (452312848583266388373324160190187140051835877600158453279131187530927439872, 0)
    ∷ (904625697166532776746648320380374280103671755200316906558406490249897181184, 0)
    ∷ (1356938545749799165119972480570561420155507632801403814866857597798906331136, 0)
    ∷ (1809251394333065553493296640760748560212660422383773476608139978364764028928, 0)
    ∷ (2261564242916331941866620800979480654113298585621957985784645840382208245760, 0)
    ∷ (2713877091499598330387064533064248170713416580207380401302186080915089784832, 0)
    ∷ (3166189940820050760293169428216736174148544169433374840757762091496551481344, 0)
    ∷ []

abbrev nine_parents : List Digest
nine_parents =
    0 ∷ 105312291668557186697918027683670432318895095400549111254310977536
    ∷ 452312848583266388422364017497895583519302982468968347154930839440785932288
    ∷ 904625697166532776746648320397501252416143273773016338191656316698414284800
    ∷ 1356938545749799165119972480570561420160824544783615023329008790833853366272
    ∷ 1809251394333065553493296640760748560207343510402181238165631475467266555904
    ∷ 2261564242916331941866620800950935700259179388000792266396088283218780880896
    ∷ 2713877091499598330239944961141122840311015265600950719674787125185581416448
    ∷ 3166189940082864718613269121331309980362851143201109172953918312716374638592 ∷ []

abbrev of_batches : Header
of_batches = record default { author = 1; round = 2; payload = eight_batches }

abbrev of_parents : Header
of_parents = record default { author = 1; round = 2; parents = nine_parents }

-- Different headers of one author and round that hash the same bytes, and so have the same id.
same_bytes : Header.hashed_bytes of_batches ≡ Header.hashed_bytes of_parents
unfolding Header.hashed_bytes le_bytes be_bytes
same_bytes = refl

not_same : length of_batches.parents ≢ length of_parents.parents
not_same e = omega arith
