-- ===== src/Translations/Ko/Onboard.antt =====
-- The Korean texts of the header and the wizard, lines 2204 to 2291 of frontend/src/i18n/translations.ts.
use lokinode.Translations.Table.{Table}
use mathlib.Core.List.{[], ◌∷◌}

unfoldable pub texts : Table
texts =
    ("header.help", "도움말")
    ∷ ("header.settings", "설정")
    ∷ ("header.minimize", "최소화")
    ∷ ("header.close", "닫기")
    ∷ ("header.update_available", "업데이트 사용 가능: {{version}}")
    ∷ ("node.errors.restart_failed", "재시작 실패")
    ∷ ("node.errors.stop_failed", "중지 실패")
    ∷ ("node.errors.start_timeout", "시작 시간이 초과되었습니다 — 로그를 확인하세요.")
    ∷ ("node.errors.lock_timeout_title", "잠금 시간 초과")
    ∷ ("node.errors.lock_timeout_desc", "데몬이 잠금 상태로 돌아오지 않았습니다. 로그를 확인하거나 노드를 중지하세요.")
    ∷ ("node.errors.another_instance", "다른 Lokinode 창이 이미 열려 있습니다. 먼저 닫아 주세요.")
    ∷ ("node.errors.port_conflict", "포트 충돌 — 다른 프로세스가 동일한 포트를 사용 중입니다.")
    ∷ ("node.errors.rate_limited", "시도 횟수가 너무 많습니다 — 잠시 기다려 주세요.")
    ∷ ("node.errors.daemon_not_ready", "데몬이 준비되지 않았습니다.")
    ∷ ("node.errors.missing_files", "노드 데이터 파일이 없습니다 — 디렉토리가 이동되거나 삭제되었을 수 있습니다.")
    ∷ ("node.errors.corrupt_cert", "TLS 인증서가 손상되었습니다 — 노드를 다시 만들어야 할 수 있습니다.")
    ∷ ("node.errors.connection_refused", "노드 데몬에 연결할 수 없습니다 — 포트 충돌을 확인하세요.")
    ∷ ("node.errors.timeout", "노드 데몬이 시작 중 시간이 초과되었습니다.")
    ∷ ("node.errors.neutrino_corrupted", "Neutrino 헤더가 손상되었습니다 — 탭하여 초기화 및 재시작.")
    ∷ ("node.errors.recover_failed", "복구 실패")
    ∷ ("node.status.no_wallet", "지갑 없음")
    ∷ ("node.status.sub.no_wallet", "지갑 데이터베이스를 찾을 수 없습니다. 뒤로 가서 이 노드를 다시 만드세요.")
    ∷ ("common.back_home", "홈으로")
    ∷ ("language.label", "언어")
    ∷ ("onboard.back", "뒤로")
    ∷ ("onboard.cancel", "취소")
    ∷ ("onboard.next", "계속")
    ∷ ("onboard.step_x_of_y", "{{x}} / {{y}} 단계")
    ∷ ("onboard.node.title", "노드 이름 설정")
    ∷ ("onboard.node.desc", "노드에 이름을 붙이고 환경 위치를 선택하세요.")
    ∷ ("onboard.node.alias", "노드 별칭")
    ∷ ("onboard.node.alias_ph", "내 Lokinode")
    ∷ ("onboard.node.dir", "노드 환경")
    ∷ ("onboard.node.advanced", "고급 네트워크 설정")
    ∷ ("onboard.wallet.title", "지갑 선택")
    ∷ ("onboard.wallet.desc", "새로 시작하거나 기존 지갑을 가져옵니다.")
    ∷ ("onboard.wallet.create", "새 지갑 만들기")
    ∷ ("onboard.wallet.create_sub", "새로운 24단어 복구 문구를 생성합니다.")
    ∷ ("onboard.wallet.restore", "기존 지갑 복구")
    ∷ ("onboard.wallet.restore_sub", "24단어 시드 또는 16진수 개인키로 복구합니다.")
    ∷ ("onboard.password.title", "지갑 비밀번호 설정")
    ∷ ("onboard.password.desc", "노드를 시작할 때마다 입력합니다.")
    ∷ ("onboard.password.label", "비밀번호")
    ∷ ("onboard.password.confirm", "비밀번호 확인")
    ∷ ("onboard.password.warn", "비밀번호 복구 방법이 없습니다. 안전한 곳에 보관하세요.")
    ∷ ("onboard.restore.title", "지갑 복구")
    ∷ ("onboard.restore.desc", "복구 자료를 붙여넣으세요 — 외부로 전송되지 않습니다.")
    ∷ ("onboard.restore.mnemonic", "시드 문구")
    ∷ ("onboard.restore.hex", "개인키")
    ∷ ("onboard.restore.mnemonic_label", "24단어 복구 문구")
    ∷ ("onboard.restore.hex_label", "개인키 (16진수)")
    ∷ ("onboard.review.title", "시작 준비 완료")
    ∷ ("onboard.review.desc", "마지막으로 확인한 후 시작하세요.")
    ∷ ("onboard.review.sync_warn", "첫 번째 실행 시 블록체인과 동기화됩니다. 연결 속도에 따라 시간이 걸릴 수 있습니다.")
    ∷ ("onboard.review.alias", "별칭")
    ∷ ("onboard.review.folder", "폴더")
    ∷ ("onboard.review.wallet", "지갑")
    ∷ ("onboard.review.wallet_create", "새 지갑")
    ∷ ("onboard.review.wallet_mnemonic", "시드 문구로 복구됨")
    ∷ ("onboard.review.wallet_hex", "16진수로 복구됨")
    ∷ ("onboard.review.network", "네트워크")
    ∷ ("onboard.review.start", "노드 시작")
    ∷ ("onboard.review.hint_create", "데몬을 실행하고 복구 시드를 생성한 후 지갑 잠금을 해제합니다.")
    ∷ ("onboard.review.hint_restore", "데몬을 실행하고 지갑을 복구합니다 — 몇 분이 걸릴 수 있습니다.")
    ∷ ("onboard.seed.title", "복구 시드 저장")
    ∷ ("onboard.seed.desc", "이 24개 단어로 지갑을 복구할 수 있습니다. 이 단어를 가진 사람은 누구나 코인을 소유할 수 있습니다.")
    ∷ ("onboard.seed.warn", "스크린샷을 찍거나 온라인에 저장하지 마세요. 종이에 적어 오프라인으로 보관하세요.")
    ∷ ("onboard.seed.ack", "24개 단어를 순서대로 모두 적었습니다.")
    ∷ ("onboard.launch.verifying", "구성 확인 중…")
    ∷ ("onboard.launch.verifying_sub", "데몬 준비 상태를 확인하는 중입니다.")
    ∷ ("onboard.launch.starting", "데몬 시작 중")
    ∷ ("onboard.launch.starting_sub", "flnd 프로세스를 실행 중입니다.")
    ∷ ("onboard.launch.waiting", "부팅 중")
    ∷ ("onboard.launch.waiting_sub", "노드가 온라인 상태가 되기를 기다리는 중…")
    ∷ ("onboard.launch.reveal_title", "복구 시드")
    ∷ ("onboard.launch.reveal_desc", "지금 바로 적어두세요 — 이번 한 번만 표시됩니다.")
    ∷ ("onboard.launch.continue_init", "내 지갑 만들기")
    ∷ ("onboard.launch.initializing", "지갑 생성 중")
    ∷ ("onboard.launch.initializing_sub", "지갑을 암호화하고 노드를 준비하는 중입니다.")
    ∷ ("onboard.launch.done", "완료")
    ∷ ("onboard.launch.error", "시작 실패")
    ∷ ("onboard.launch.dismiss", "닫기")
    ∷ ("onboard.errors.pwd_min", "비밀번호는 최소 8자 이상이어야 합니다.")
    ∷ ("onboard.errors.pwd_match", "비밀번호가 일치하지 않습니다.")
    ∷ ("onboard.errors.mnemonic_len", "문구는 정확히 24개 단어여야 합니다.")
    ∷ ("onboard.errors.hex_required", "복구하려면 16진수 개인키를 입력하세요.")
    ∷ ("onboard.errors.wallet_exists", "이 폴더에는 이미 지갑이 있습니다. 빈 폴더를 선택하거나 여기에 복구하세요.")
    ∷ ("onboard.errors.seed_gen_failed", "복구 문구 생성에 실패했습니다. 다시 시도해 주세요.")
    ∷ []
