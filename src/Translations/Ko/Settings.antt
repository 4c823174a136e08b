-- ===== src/Translations/Ko/Settings.antt =====
-- The Korean texts of the main page and the settings, lines 2014 to 2107 of frontend/src/i18n/translations.ts.
use lokinode.Translations.Table.{Table}
use mathlib.Core.List.{[], ◌∷◌}

unfoldable pub texts : Table
texts =
    ("main.title", "노드 구성")
    ∷ ("main.data_dir", "노드 환경")
    ∷ ("main.starting", "노드 시작 중…")
    ∷ ("main.start", "노드 시작")
    ∷ ("main.select_dir_title", "노드 환경 찾기")
    ∷ ("main.loading_default", "기본 디렉토리 불러오는 중...")
    ∷ ("main.existing.badge", "기존 노드 발견")
    ∷ ("main.existing.desc", "이 위치에서 Flokicoin 노드 환경이 감지되었습니다. 바로 시작할 수 있습니다.")
    ∷ ("main.existing.start", "탭하여 시작")
    ∷ ("main.configure", "노드 설정 구성")
    ∷ ("main.errors.alias", "노드 별칭이 필요합니다")
    ∷ ("main.errors.alias_invalid", "유효하지 않은 별칭 이름")
    ∷ ("main.errors.start_failed", "시작 실패")
    ∷ ("main.errors.config_error", "구성 오류")
    ∷ ("main.errors.node_error", "노드 오류")
    ∷ ("main.errors.not_a_node", "이 디렉토리에서 기존 노드를 찾을 수 없습니다")
    ∷ ("main.errors.dir_error", "디렉토리 선택 오류")
    ∷ ("main.default_alias", "MyLokinode")
    ∷ ("config.alias_default_hint", "기본 이름을 사용합니다")
    ∷ ("main.create_new", "새 노드 만들기")
    ∷ ("main.create_new_sub", "새 환경을 초기화합니다.")
    ∷ ("main.open_existing", "기존 노드 열기")
    ∷ ("main.open_existing_sub", "기존 노드 환경에서 재개합니다.")
    ∷ ("main.browse_folder", "폴더 선택")
    ∷ ("main.status.offline", "노드 오프라인")
    ∷ ("main.status.starting", "시작 중")
    ∷ ("main.power_hint", "탭하여 시작")
    ∷ ("main.power_hint_starting", "데몬 초기화 중...")
    ∷ ("config.alias", "노드 별칭")
    ∷ ("config.alias_ph", "예: MyLokinode")
    ∷ ("config.network", "네트워크 설정")
    ∷ ("config.rest_cors", "REST CORS")
    ∷ ("config.rpc_listen", "RPC 리슨")
    ∷ ("config.rest_listen", "REST 리슨")
    ∷ ("settings.title", "설정")
    ∷ ("security.title", "보안")
    ∷ ("security.section", "지갑 비밀번호 변경")
    ∷ ("security.current_pwd", "현재 비밀번호")
    ∷ ("security.new_pwd", "새 비밀번호")
    ∷ ("security.new_pwd_ph", "최소 8자 이상")
    ∷ ("security.confirm_pwd", "새 비밀번호 확인")
    ∷ ("security.update", "비밀번호 업데이트")
    ∷ ("security.updating", "업데이트 중…")
    ∷ ("security.update_sub", "지갑을 재암호화하고 있습니다. 잠시 기다려 주세요.")
    ∷ ("security.updated", "비밀번호가 업데이트되었습니다")
    ∷ ("security.updated_ok", "비밀번호가 성공적으로 업데이트되었습니다")
    ∷ ("security.failed", "업데이트 실패")
    ∷ ("security.stop_prompt", "비밀번호를 업데이트하려면 노드를 중지해야 합니다. 지금 중지하고 업데이트를 적용하시겠습니까?")
    ∷ ("security.update_failed", "업데이트 실패")
    ∷ ("security.error.timeout", "노드가 잠금 상태로 전환되기를 기다리는 동안 시간이 초과되었습니다")
    ∷ ("validation.required", "필수 항목입니다")
    ∷ ("validation.min8", "최소 8자 이상 입력해 주세요")
    ∷ ("validation.no_match", "일치하지 않습니다")
    ∷ ("validation.dir_required", "환경 위치가 필요합니다")
    ∷ ("validation.dir_not_empty", "환경은 비어 있거나 새로운 것이어야 합니다")
    ∷ ("validation.invalid_cors", "유효한 URL 또는 *이어야 합니다")
    ∷ ("validation.invalid_listen", "유효하지 않은 형식 (예: 0.0.0.0:10005)")
    ∷ ("network.public_node", "퍼블릭 노드")
    ∷ ("network.public_node_sub", "외부 P2P 연결을 허용하고 네트워크에 알립니다")
    ∷ ("network.restart_hint", "다음 재시작 시 적용됩니다")
    ∷ ("network.restart_required", "네트워크 변경사항을 적용하려면 재시작이 필요합니다.")
    ∷ ("network.restart_btn", "적용 및 재시작")
    ∷ ("network.restarting", "재시작 중...")
    ∷ ("network.restart.confirm", "재시작하시겠습니까?")
    ∷ ("network.restart.confirm_action", "다시 클릭하여 재시작 확인")
    ∷ ("network.restart_sub", "노드가 곧 다시 온라인 상태가 됩니다.")
    ∷ ("network.errors.invalid_config", "구성 문제")
    ∷ ("network.public_ip", "공개 IP 주소")
    ∷ ("network.public_ip_sub", "피어에 알리는 IP 주소. 생략하면 기본 포트 5521이 사용됩니다.")
    ∷ ("network.public_ip_ph", "예: 203.0.113.42 또는 203.0.113.42:5521")
    ∷ ("network.ip_error", "유효하지 않은 IP 주소")
    ∷ ("network.ip_missing", "IP 미설정 — 노드가 수신 대기하지만 외부에서 검색되지 않습니다")
    ∷ ("network.group.identity", "노드 ID")
    ∷ ("network.group.visibility", "공개 가시성")
    ∷ ("network.group.endpoints", "엔드포인트 및 CORS")
    ∷ ("network.group.credentials", "인증 정보")
    ∷ ("network.cors", "REST CORS 오리진")
    ∷ ("network.cors_sub", "REST API 접근을 허용할 브라우저 오리진. 비워두면 CORS가 비활성화됩니다.")
    ∷ ("network.cors_ph", "예: http://localhost:3000")
    ∷ ("network.pubkey", "노드 공개키")
    ∷ ("network.grpc", "gRPC 엔드포인트")
    ∷ ("network.rest", "REST 엔드포인트")
    ∷ ("network.data_dir", "노드 환경")
    ∷ ("network.macaroon", "관리자 Macaroon")
    ∷ ("network.tls", "TLS 인증서")
    ∷ ("network.hex_locked", "잠금 해제 후 사용 가능")
    ∷ ("receive.title", "FLC 받기")
    ∷ ("receive.new_addr", "새 주소 생성")
    ∷ ("receive.copied", "복사됨")
    ∷ ("receive.copy_desc", "주소가 클립보드에 복사되었습니다")
    ∷ ("receive.payment_received", "결제가 수신되었습니다")
    ∷ ("receive.addr_type", "주소 유형")
    ∷ ("receive.segwit", "SegWit")
    ∷ ("receive.taproot", "Taproot")
    ∷ []
