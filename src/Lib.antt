-- ===== src/Lib.antt =====
-- A model of agentmarshal's journal: the records that testify what was done on a task, and the state
-- projected from them.
--
-- The journal keeps one directory of record files for each task. A record is a JSON object whose
-- schema number and type select the fields it may carry. The write path checks a record against every
-- rule and the read path against the rules of the record's own schema and below, so that history stays
-- readable (ADR-0015). A task's state is not stored: it is projected from its records in their order,
-- and a writer asks a guard before it adds one. Files are named by ULIDs, whose order is the order of
-- the records. Text from the journal that is printed is escaped by the predicate that the record rules
-- refuse text by.
--
-- The parts, and the files that model them:
--   Common      Booleans of comparisons, lists, results of fallible code, texts as lists of code points.
--   Json        JSON values and objects, as `json.loads` gives them; an object is an association list in
--               which the first entry of a key counts.
--   Runtime     What the program takes from Python and its libraries, as a record of functions: the
--               category of a character, `str.isspace`, `datetime.fromisoformat`, `json`, `hashlib`.
--               Theorems hold for every such record; a hypothesis on one is named where it is used.
--   Registry    src/agentmarshal/journal/attestation.py: the record types, the state each projects to,
--               and after which terminal states it is admitted.
--   Records     src/agentmarshal/journal/records.py. Schema: the fields of each type and the field
--               families of each schema. Patterns: the regular expressions, each as a function on texts.
--               Forgeable: `forges_rendered_text` and the shapes the rules share. Rules: each `_check_…`
--               rule, as a function into `Check`. Validate: `_RULES`, `_RULE_FROM_SCHEMA` and
--               `_validate_record`. Files: `read_records`, `validate_record_content` and
--               `validate_record_for_write`, over the record files of a task in path order. Sound,
--               ReadBack, Accepted, Surrogates: theorems on these.
--               Builders: `_minimum_schema`, how it compares with the rules, and the functions
--               `create_…_record`; what a builder takes from its surroundings (the task, the version, the
--               time and the source) is the record `Origin`.
--   Status      src/agentmarshal/journal/status.py: `project_status` and `load_task_for_record`. The
--               three variables of the loop are the record `Projection`; Phases states the life cycle as
--               a step relation, and Guard, Order, Typed and Exact hold the theorems.
--   Contracts   src/agentmarshal/journal/contracts.py: `validate_scope_entry`, `scope_covers` and, in
--               Header, `parse_contract_text` and `contract_sha256`. `str.splitlines` and `tomllib.loads`
--               are the record `Toml`.
--   Settings    src/agentmarshal/settings.py: the readers of the three settings, from the object that
--               project.json holds.
--   Gate        src/agentmarshal/journal/gate.py. Transcript: the lines and the count of violations that
--               `say` and `check` keep. Identity, with src/agentmarshal/journal/actors.py: what the gates
--               read (`Host`, `Task`) and `finding_reviewer_identity_refusal`. Lines and Findings:
--               `run_findings_gate`, line by line. Diff: `_changed_with_status`. Paths: the paths of
--               evidence and what a sidecar's git shows as changed. Base and Evidence: of `run_gate`, in
--               the embedded placement, the admission of a candidate on the base tree and the last four
--               checks; Base/Closed and Base/Extended hold the theorems on a task that is closed there.
--               Verdict: its lines on the latest review and acceptance. Independence:
--               `_judge_independence_rule`. The outputs of git, the local artifacts and project.json are
--               arguments.
--   Complete    src/agentmarshal/journal/complete.py: the flag values of advisory findings, and
--               `complete_findings_task` up to the record that it writes.
--   Display     src/agentmarshal/journal/display.py: `escape_for_display`.
--   Ulid        src/agentmarshal/journal/records.py: `_encode_base32` and `generate_ulid`; the two
--               globals are the record `Clock`, which each call takes and gives back. The time and the
--               random draws are arguments.
--   Examples    Records, runs and texts at which the theorems hold.
--
-- A refusal is a value of `Error` that names the field and the kind of the refusal, not the message's
-- whole text; an exception of another class that the code lets escape is a constructor of its own. The
-- gate's loop over the added records turns what it catches into a refusal and lets the others escape. All
-- recursion is structural, on a list, a text or a number of digits: nothing runs on fuel.
--
-- Not modelled: the file system (symbolic links, directories, the atomic placement of a file), git, and
-- the commands that print; of `run_gate` the choice of a lane, the scope check, the agreement, the
-- reviewer's identity, the named documents and extensions and the leak scan; the sidecar placement but for
-- its tampering check; the extensions, the switches and the writers of single records but for the
-- completion of findings.
pub mod Common
pub mod Json
pub mod Runtime
pub mod Registry
pub mod Records
pub mod Status
pub mod Display
pub mod Ulid
pub mod Contracts
pub mod Settings
pub mod Gate
pub mod Complete
mod Examples
