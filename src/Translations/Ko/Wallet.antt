-- ===== src/Translations/Ko/Wallet.antt =====
-- The Korean texts of the views of the wallet, lines 2108 to 2203 of frontend/src/i18n/translations.ts.
use lokinode.Translations.Table.{Table}
use mathlib.Core.List.{[], ◌∷◌}

unfoldable pub texts : Table
texts =
    ("send.total_cost", "총 비용")
    ∷ ("send.confirm_send", "확인 및 전송")
    ∷ ("send.recipient", "받는 주소")
    ∷ ("send.amount", "금액 (FLC)")
    ∷ ("send.available", "사용 가능: {{amount}} FLC")
    ∷ ("send.fee_speed", "수수료 속도")
    ∷ ("send.economy", "절약")
    ∷ ("send.standard", "표준")
    ∷ ("send.fast", "빠름")
    ∷ ("send.next", "다음")
    ∷ ("send.back", "뒤로")
    ∷ ("send.review", "확인")
    ∷ ("send.estimating", "계산 중…")
    ∷ ("send.confirm_title", "트랜잭션 확인")
    ∷ ("send.to", "받는 사람")
    ∷ ("send.amount_label", "금액")
    ∷ ("send.fee_rate", "수수료율")
    ∷ ("send.est_fee", "예상 수수료")
    ∷ ("send.balance_after", "전송 후 잔액")
    ∷ ("send.coins", "코인 전송")
    ∷ ("send.sending", "전송 중…")
    ∷ ("send.success", "전송 완료!")
    ∷ ("send.errors.address", "주소를 입력해 주세요")
    ∷ ("send.errors.amount", "유효하지 않은 금액입니다")
    ∷ ("send.errors.fee", "수수료를 계산할 수 없습니다")
    ∷ ("send.errors.failed", "전송 실패")
    ∷ ("send.address_ph", "flc1q…")
    ∷ ("send.address_first", "먼저 받는 주소를 입력해 주세요")
    ∷ ("send.amount_ph", "0.00000000")
    ∷ ("send.review_title", "트랜잭션 검토")
    ∷ ("send.sending_label", "전송 금액")
    ∷ ("send.network_fee", "네트워크 수수료")
    ∷ ("send.arrival_est", "예상 도착: 약 {{time}}분")
    ∷ ("send.calculating", "계산 중…")
    ∷ ("send.errors.exceeds_balance", "금액이 잔액을 초과합니다")
    ∷ ("send.errors.leave_fee_room", "금액이 너무 높습니다 — 수수료를 위한 여유를 남겨두세요 (~{{fee}} FLC)")
    ∷ ("history.empty", "아직 트랜잭션이 없습니다")
    ∷ ("history.load_more", "더 불러오기 ({{count}}개 남음)")
    ∷ ("history.unconfirmed", "미확인")
    ∷ ("history.conf", "{{count}}회 확인")
    ∷ ("about.version", "버전")
    ∷ ("about.latest", "최신")
    ∷ ("about.latest_badge", "최신")
    ∷ ("about.download", "업데이트 다운로드")
    ∷ ("about.github", "GitHub에서 보기")
    ∷ ("update.title", "업데이트 사용 가능")
    ∷ ("update.body", "버전 {{version}}에는 보안 개선 및 버그 수정이 포함되어 있습니다.")
    ∷ ("update.later", "나중에")
    ∷ ("update.now", "지금 업데이트")
    ∷ ("wallet.setup.title", "지갑 설정")
    ∷ ("wallet.setup.new", "새 지갑")
    ∷ ("wallet.setup.mnemonic", "니모닉")
    ∷ ("wallet.setup.private", "개인키")
    ∷ ("wallet.pwd.title", "지갑 비밀번호 설정")
    ∷ ("wallet.pwd.label", "지갑 비밀번호")
    ∷ ("wallet.pwd.confirm", "비밀번호 확인")
    ∷ ("wallet.pwd.repeat_ph", "비밀번호 재입력")
    ∷ ("wallet.new.title", "추가 보호")
    ∷ ("wallet.new.optional", "(선택 사항)")
    ∷ ("wallet.new.seed_pwd", "시드 암호")
    ∷ ("wallet.new.seed_pwd_ph", "선택 사항 — 없으면 비워 두세요")
    ∷ ("wallet.new.confirm_pwd", "암호 확인")
    ∷ ("wallet.new.confirm_pwd_ph", "암호 재입력")
    ∷ ("wallet.new.generate", "지갑 생성")
    ∷ ("wallet.new.recovery_title", "복구 문구")
    ∷ ("wallet.new.recovery_desc", "이 24개 단어를 적어두고 안전하게 보관하세요. 지갑을 복구할 수 있는 유일한 방법입니다.")
    ∷ ("wallet.new.saved_btn", "문구를 저장했습니다")
    ∷ ("wallet.new.mismatch", "암호가 일치하지 않습니다")
    ∷ ("wallet.new.error", "지갑 오류")
    ∷ ("wallet.import.recovery", "복구 문구")
    ∷ ("wallet.import.recovery_ph", "24개 단어를 공백으로 구분하여 입력하세요")
    ∷ ("wallet.import.seed_pwd", "시드 암호 (선택 사항)")
    ∷ ("wallet.import.seed_pwd_ph", "선택 사항 — 없으면 비워 두세요")
    ∷ ("wallet.import.restore", "지갑 복구")
    ∷ ("wallet.import.error_24words", "정확히 24개 단어여야 합니다")
    ∷ ("wallet.import.error", "가져오기 오류")
    ∷ ("wallet.private.label", "개인키")
    ∷ ("wallet.private.ph", "e9860a33a39e80c427382d619946808f5d75571694f6c4d7e9f3b5c777d0a7a3")
    ∷ ("wallet.errors.key_required", "개인키가 필요합니다")
    ∷ ("wallet.mnemonic.notice", "중요 보안 알림")
    ∷ ("wallet.mnemonic.ensure", "니모닉 문구를 안전하게 백업했는지 확인해 주세요.")
    ∷ ("wallet.mnemonic.point1", "이 단어들을 백업할 수 있는 유일한 기회입니다")
    ∷ ("wallet.mnemonic.point2", "이 백업 없이는 지갑을 분실했을 때 복구할 수 없습니다")
    ∷ ("wallet.mnemonic.point3", "이 백업을 안전한 장소에 보관하고 절대 공유하지 마세요")
    ∷ ("wallet.mnemonic.footer", "확인 후에는 이 단어들을 다시 볼 수 없습니다")
    ∷ ("wallet.mnemonic.back", "뒤로")
    ∷ ("wallet.mnemonic.confirm", "니모닉을 백업했습니다")
    ∷ ("common.info", "정보")
    ∷ ("common.close", "닫기")
    ∷ ("common.apply", "적용")
    ∷ ("common.save", "저장")
    ∷ ("common.copy", "복사")
    ∷ ("common.copied", "복사됨")
    ∷ ("common.processing", "처리 중…")
    ∷ ("common.error", "오류")
    ∷ ("common.continue", "계속")
    ∷ []
